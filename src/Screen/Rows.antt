-- ===== src/Screen/Rows.antt =====
-- source/nx/main.c, the rows of the boxes on the screen: fill_chars, tui_section_top,
-- tui_section_bottom, tui_section_blank, tui_kv, tui_text_line and draw_header. A row is the text
-- that is printed in front of the line feed.
pub mod Spans
pub mod Widths
use nx_mem_test.Base.{
  ℕ, zero, suc, ◌+◌, ◌-◌, List, [], ◌∷◌, ◌++◌, length, Option, none, some, leb, ◌==◌, if◌then◌else◌,
}
use nx_mem_test.Base.Text.{codes, replicate, cut, pad_right}
use nx_mem_test.Screen.{visible_width}

abbrev pub tui_width : ℕ
tui_width = 78

-- The escape sequences: `\x1b`, `[`, the number and `m`.
abbrev pub ansi : List ℕ → List ℕ
ansi parameters = 0x1b ∷ 0x5b ∷ (parameters ++ (0x6d ∷ []))

abbrev pub ansi_reset : List ℕ
ansi_reset = ansi (codes "0")

abbrev pub ansi_bold : List ℕ
ansi_bold = ansi (codes "1")

abbrev pub ansi_dim : List ℕ
ansi_dim = ansi (codes "2")

abbrev pub ansi_cyan : List ℕ
ansi_cyan = ansi (codes "36")

abbrev pub ansi_white : List ℕ
ansi_white = ansi (codes "37")

-- What `fill_chars` leaves in a buffer. A negative count is 0 there, and is 0 here too, since
-- subtraction stops at 0. An empty buffer is left alone.
unfoldable pub fill_chars : ℕ → ℕ → ℕ → List ℕ
fill_chars buf_size c count =
    if buf_size == 0
    then []
    else if leb buf_size count
    then replicate (buf_size - 1) c
    else replicate count c

unfoldable pub section_top : List ℕ → List ℕ
unfolding fill_chars
section_top title =
    let dash_buf = fill_chars tui_width b'-' (tui_width - 1 - (4 + length title)) in
    ansi_cyan
    ++ codes "+- "
    ++ ansi_bold
    ++ title
    ++ ansi_reset
    ++ ansi_cyan
    ++ codes " "
    ++ dash_buf
    ++ codes "+"
    ++ ansi_reset

-- A row between two bars, filled with one character: the bottom of a section, its blank rows and
-- the top of the header.
abbrev pub filled_row : List ℕ → ℕ → List ℕ
filled_row bar c =
    let buf = fill_chars tui_width c (tui_width - 2) in ansi_cyan ++ bar ++ buf ++ bar ++ ansi_reset

unfoldable pub section_bottom : List ℕ
unfolding fill_chars
section_bottom = filled_row (codes "+") b'-'

unfoldable pub section_blank : List ℕ
unfolding fill_chars
section_blank =
    let space_buf = fill_chars tui_width b' ' (tui_width - 2) in
    ansi_cyan ++ codes "|" ++ ansi_reset ++ space_buf ++ ansi_cyan ++ codes "|" ++ ansi_reset

abbrev pub or_empty : Option (List ℕ) → List ℕ
or_empty none = []
or_empty (some s) = s

-- `formatted` is what `vsnprintf` would write into a buffer without a bound.
unfoldable pub kv : List ℕ → Option (List ℕ) → List ℕ → List ℕ
unfolding fill_chars
kv label value_color formatted =
    let value = cut 127 formatted in
    let written = length (codes "  " ++ pad_right 22 label ++ codes " : " ++ value) in
    let pad_buf = fill_chars tui_width b' ' (tui_width - 2 - written) in
    ansi_cyan
    ++ codes "|"
    ++ ansi_reset
    ++ codes "  "
    ++ ansi_dim
    ++ pad_right 22 label
    ++ ansi_reset
    ++ codes " : "
    ++ or_empty value_color
    ++ value
    ++ ansi_reset
    ++ pad_buf
    ++ ansi_cyan
    ++ codes "|"
    ++ ansi_reset

unfoldable pub text_line : Option (List ℕ) → List ℕ → List ℕ
unfolding fill_chars visible_width
text_line text_color formatted =
    let text = cut 255 formatted in
    let visible = visible_width text_color + visible_width (some text) in
    let pad_buf = fill_chars tui_width b' ' (tui_width - 2 - 2 - visible) in
    ansi_cyan
    ++ codes "|"
    ++ ansi_reset
    ++ codes "  "
    ++ or_empty text_color
    ++ text
    ++ ansi_reset
    ++ pad_buf
    ++ ansi_cyan
    ++ codes "|"
    ++ ansi_reset

unfoldable pub header_title : List ℕ
unfolding fill_chars
header_title =
    let title_left = codes "NX-MemTest 0.1.0" in
    let title_right = codes "[PLUS] Exit" in
    let padding = tui_width - 2 - 1 - length title_left - length title_right - 1 in
    let pad_buf = fill_chars tui_width b' ' padding in
    ansi_cyan
    ++ codes "|"
    ++ ansi_reset
    ++ codes " "
    ++ ansi_bold
    ++ ansi_white
    ++ title_left
    ++ ansi_reset
    ++ pad_buf
    ++ ansi_dim
    ++ title_right
    ++ ansi_reset
    ++ codes " "
    ++ ansi_cyan
    ++ codes "|"
    ++ ansi_reset

-- `draw_header`, row by row.
unfoldable pub header : List (List ℕ)
unfolding fill_chars section_blank header_title
header =
    let bar = filled_row (codes "+") b'=' in
    bar ∷ section_blank ∷ header_title ∷ section_blank ∷ bar ∷ []
