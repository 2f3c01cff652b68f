-- ===== src/Screen.antt =====
-- source/nx/main.c, the screen: how wide a text is, visible_width, and in the modules below the rows
-- and the boxes made of them.
pub mod Width
pub mod Rows
pub mod Sections
pub mod Menus
mod Tests
use nx_mem_test.Base.{
  ℕ, suc, Bool, true, false, ◌&&◌, List, [], ◌∷◌, leb, ◌==◌, Option, none, some, if◌then◌else◌,
}

-- Where `visible_width` stands: at the head of its loop, at the bracket that it skips unread, or in
-- the inner loop.
pub data Position : Type 0 where
  head bracket sequence : Position

-- Whether `*(s + 1)` is the bracket; the terminator at the end of the string is not.
abbrev pub starts_with_bracket : List ℕ → Bool
starts_with_bracket [] = false
starts_with_bracket (c ∷ s) = c == 0x5b

-- A character from `@` to `~`.
abbrev pub is_final : ℕ → Bool
is_final c = leb 0x40 c && leb c 0x7e

-- A string is the list of its characters before the terminator.
unfoldable pub width_loop : Position → List ℕ → ℕ
width_loop position [] = 0
width_loop head (c ∷ s) =
    let escape = width_loop bracket s in
    let next = width_loop head s in if c == 0x1b && starts_with_bracket s then escape else suc next
width_loop bracket (c ∷ s) = width_loop sequence s
width_loop sequence (c ∷ s) =
    let ended = width_loop head s in
    let next = width_loop sequence s in if is_final c then ended else next

-- `none` is the null pointer.
unfoldable pub visible_width : Option (List ℕ) → ℕ
unfolding width_loop
visible_width none = 0
visible_width (some s) = width_loop head s
