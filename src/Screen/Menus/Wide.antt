-- ===== src/Screen/Menus/Wide.antt =====
-- Every row of the boxes that come before a run is as wide as the screen.
