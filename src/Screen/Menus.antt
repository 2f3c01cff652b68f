-- ===== src/Screen/Menus.antt =====
-- source/nx/main.c, the boxes that come before a run, as lists of rows: tui_draw_mode_menu, the box
-- of tui_choose_duration, the head of run_gpu_bench_screen, and the two boxes that main shows
-- without an override heap.
pub mod Wide
use nx_mem_test.Base.{ℕ, suc, Bool, true, false, List, [], ◌∷◌, ◌++◌, some, ◌==◌, if◌then◌else◌}
use nx_mem_test.Base.Text.{codes, cut}
use nx_mem_test.Types.{Mode}
use nx_mem_test.ReportText.{mode_name}
use nx_mem_test.Screen.Rows.{
  ansi_reset, ansi_bold, ansi_dim, ansi_cyan, section_top, section_bottom, section_blank, kv,
  text_line,
}
use nx_mem_test.Screen.Sections.{ansi_red, ansi_green}

-- A key in a color, as the menus show it in front of a line.
abbrev pub key : List ℕ → List ℕ → List ℕ
key color name = color ++ name ++ ansi_reset

-- The line of a mode that asks for an amount of memory.
abbrev pub mode_line : Bool → List ℕ → List ℕ → List ℕ → List ℕ
mode_line available name text requirement =
    text_line (some (if available then key ansi_green name else key ansi_dim name))
      (text ++ (if available then [] else requirement))

unfoldable pub draw_mode_menu : Bool → Bool → List (List ℕ)
unfolding section_top section_bottom section_blank text_line
draw_mode_menu has_memory_load has_extreme =
    section_top (codes "Select Mode")
    ∷ section_blank
    ∷ text_line (some (key ansi_green (codes "[A]"))) (codes " Quick Check")
    ∷ mode_line has_memory_load (codes "[X]") (codes " Memory Load") (codes "  (requires 256 MiB)")
    ∷ mode_line has_extreme (codes "[Y]") (codes " Extreme") (codes "  (requires 512 MiB)")
    ∷ text_line (some (key ansi_cyan (codes "[B]"))) (codes " GPU Bandwidth PoC")
    ∷ text_line (some (key ansi_red (codes "[+]"))) (codes " Exit")
    ∷ section_blank
    ∷ section_bottom
    ∷ []

-- The labels of `kDurations`.
abbrev pub duration_labels : List (List ℕ)
duration_labels =
    codes "3 minutes"
    ∷ codes "5 minutes"
    ∷ codes "10 minutes"
    ∷ codes "15 minutes"
    ∷ codes "30 minutes"
    ∷ codes "60 minutes"
    ∷ []

abbrev pub duration_line : Bool → List ℕ → List ℕ
duration_line selected label =
    if selected
    then text_line (some (key ansi_green (codes ">")))
        (codes " " ++ ansi_bold ++ label ++ ansi_reset)
    else text_line (some (key ansi_dim (codes " "))) (codes " " ++ label)

-- The loop over the labels, from number `i` on.
unfoldable pub duration_lines : ℕ → ℕ → List (List ℕ) → List (List ℕ)
unfolding text_line
duration_lines sel i [] = []
duration_lines sel i (label ∷ labels) =
    duration_line (i == sel) label ∷ duration_lines sel (suc i) labels

unfoldable pub draw_duration_menu : Mode → ℕ → List (List ℕ)
unfolding section_top section_bottom section_blank duration_lines
draw_duration_menu mode sel =
    (section_top (cut 63 (codes "Test Duration  (" ++ mode_name mode ++ codes ")"))
      ∷ section_blank
      ∷ [])
    ++ duration_lines sel 0 duration_labels
    ++ (section_blank ∷ section_bottom ∷ [])

unfoldable pub gpu_bench_box : List (List ℕ)
unfolding section_top section_bottom section_blank text_line
gpu_bench_box =
    section_top (codes "GPU Bandwidth PoC")
    ∷ section_blank
    ∷ text_line (some ansi_dim)
        (codes "Stepping deko3d buffer size up until the kernel runs out of headroom.")
    ∷ section_blank
    ∷ section_bottom
    ∷ []

unfoldable pub no_heap_boxes : List (List ℕ)
unfolding section_top section_bottom section_blank kv text_line
no_heap_boxes =
    section_top (codes "Memory")
    ∷ section_blank
    ∷ kv (codes "Override Heap") (some ansi_red) (codes "missing")
    ∷ section_blank
    ∷ section_bottom
    ∷ section_top (codes "Notice")
    ∷ section_blank
    ∷ text_line (some ansi_red) (codes "No usable OverrideHeap was provided.")
    ∷ text_line (some []) (codes "Launch through hbmenu in title-override / full-memory mode.")
    ∷ section_blank
    ∷ section_bottom
    ∷ []
