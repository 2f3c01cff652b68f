-- ===== src/Screen/Rows/Widths.antt =====
-- Every row of a box is as wide as the screen.
use nx_mem_test.Base.{
  ℕ, ◌+◌, ◌-◌, ◌≤◌, ◌≡◌, refl, sym, ap, ◌∙◌, false, List, [], ◌∷◌, ◌++◌, length, length-append,
  some, arith, ◌==◌, max,
}
use mathlib.Core.Path.{subst}
use nx_mem_test.Base.Text.{codes, replicate, length-replicate, cut, cut_fits, pad_right}
use nx_mem_test.Screen.{visible_width}
use nx_mem_test.Screen.Width.{IsPlain, Piece, IsText, render, plain_length, visible_width-render}
use nx_mem_test.Screen.Rows.{
  tui_width, section_top, section_bottom, section_blank, kv, text_line, header_title, filled_row,
}
use nx_mem_test.Screen.Rows.Spans.{
  Spans, ◌⊹◌, plain-Spans, pieces-Spans, cyan-Spans, reset-Spans, bold-Spans, dim-Spans,
  literal-Spans, fill-Spans, row-width, replicate-Spans,
}

-- A top row whose title fits.
pub visible_width-section_top :
    (title : List ℕ)
    → IsPlain title
    → length title ≤ 73
    → visible_width (some (section_top title)) ≡ tui_width
unfolding section_top
visible_width-section_top title h fits =
    row-width (section_top title)
      (cyan-Spans
        ⊹ literal-Spans (codes "+- ") refl
        ⊹ bold-Spans
        ⊹ plain-Spans title h
        ⊹ reset-Spans
        ⊹ cyan-Spans
        ⊹ literal-Spans (codes " ") refl
        ⊹ fill-Spans b'-' (tui_width - 1 - (4 + length title)) refl (omega arith)
        ⊹ literal-Spans (codes "+") refl
        ⊹ reset-Spans)
      (omega arith)

pub visible_width-filled_row :
    (c : ℕ) → (c == 0x1b) ≡ false → visible_width (some (filled_row (codes "+") c)) ≡ tui_width
visible_width-filled_row c h =
    row-width (filled_row (codes "+") c)
      (cyan-Spans
        ⊹ literal-Spans (codes "+") refl
        ⊹ fill-Spans c (tui_width - 2) h (omega arith)
        ⊹ literal-Spans (codes "+") refl
        ⊹ reset-Spans)
      refl

pub visible_width-section_bottom : visible_width (some section_bottom) ≡ tui_width
unfolding section_bottom
visible_width-section_bottom = visible_width-filled_row b'-' refl

pub visible_width-section_blank : visible_width (some section_blank) ≡ tui_width
unfolding section_blank
visible_width-section_blank =
    row-width section_blank
      (cyan-Spans
        ⊹ literal-Spans (codes "|") refl
        ⊹ reset-Spans
        ⊹ fill-Spans b' ' (tui_width - 2) refl (omega arith)
        ⊹ cyan-Spans
        ⊹ literal-Spans (codes "|") refl
        ⊹ reset-Spans)
      refl

pub visible_width-header_title : visible_width (some header_title) ≡ tui_width
unfolding header_title visible_width
visible_width-header_title = refl

pad_right-Spans :
    (label : List ℕ)
    → IsPlain label
    → Spans (length label + (22 - length label)) (pad_right 22 label)
pad_right-Spans label h = plain-Spans label h ⊹ replicate-Spans (22 - length label) b' ' refl

-- A color is a text without visible characters.
abbrev pub IsColor : List Piece → Type 0
IsColor pieces = IsText pieces × (plain_length pieces ≡ 0)

pub visible_width-kv :
    (label value : List ℕ) (color : List Piece)
    → IsPlain label
    → IsPlain value
    → IsColor color
    → max 22 (length label) + length value ≤ 71
    → visible_width (some (kv label (some (render color)) value)) ≡ tui_width
unfolding kv
visible_width-kv label value color h h' h'' fits =
    let shown = cut 127 value in
    let whole : shown ≡ value = cut_fits 127 value (omega arith) in
    let size : length shown ≡ length value = ap length whole in
    let text = codes "  " ++ pad_right 22 label ++ codes " : " ++ shown in
    let written : length text ≡ 5 + max 22 (length label) + length value = omega (
      arith,
      length-append (codes "  " ++ pad_right 22 label ++ codes " : ") shown,
      length-append (codes "  " ++ pad_right 22 label) (codes " : "),
      length-append (codes "  ") (pad_right 22 label),
      length-append label (replicate (22 - length label) b' '),
      length-replicate (22 - length label) b' ',
      size,
    ) in
    row-width (kv label (some (render color)) value)
      (cyan-Spans
        ⊹ literal-Spans (codes "|") refl
        ⊹ reset-Spans
        ⊹ literal-Spans (codes "  ") refl
        ⊹ dim-Spans
        ⊹ pad_right-Spans label h
        ⊹ reset-Spans
        ⊹ literal-Spans (codes " : ") refl
        ⊹ pieces-Spans color h''.0
        ⊹ plain-Spans shown (subst IsPlain (sym whole) h')
        ⊹ reset-Spans
        ⊹ fill-Spans b' ' (tui_width - 2 - length text) refl (omega arith)
        ⊹ cyan-Spans
        ⊹ literal-Spans (codes "|") refl
        ⊹ reset-Spans)
      (omega (arith, written, size, h''.1))

visible_width-text_line :
    (color text : List Piece)
    → IsText color
    → IsText text
    → length (render text) ≤ 255
    → plain_length color + plain_length text ≤ 74
    → visible_width (some (text_line (some (render color)) (render text))) ≡ tui_width
unfolding text_line
visible_width-text_line color text h h' short fits =
    let shown = cut 255 (render text) in
    let whole : shown ≡ render text = cut_fits 255 (render text) short in
    let visible = visible_width (some (render color)) + visible_width (some shown) in
    let seen : visible ≡ plain_length color + plain_length text = omega (
      arith,
      visible_width-render color h,
      ap (λ t. visible_width (some t)) whole ∙ visible_width-render text h',
    ) in
    row-width (text_line (some (render color)) (render text))
      (cyan-Spans
        ⊹ literal-Spans (codes "|") refl
        ⊹ reset-Spans
        ⊹ literal-Spans (codes "  ") refl
        ⊹ pieces-Spans color h
        ⊹ subst (Spans (plain_length text)) (sym whole) (pieces-Spans text h')
        ⊹ reset-Spans
        ⊹ fill-Spans b' ' (tui_width - 2 - 2 - visible) refl (omega arith)
        ⊹ cyan-Spans
        ⊹ literal-Spans (codes "|") refl
        ⊹ reset-Spans)
      (omega (arith, seen))

-- The rows of a list are all as wide as the screen.
abbrev pub AllWide : List (List ℕ) → Type 0
AllWide [] = Unit {0}
AllWide (row ∷ rows) = (visible_width (some row) ≡ tui_width) × AllWide rows
