-- ===== src/Screen/Sections/Boxes.antt =====
-- Boxes row by row: colors, rows that are as wide as the screen, and lists of them.
use nx_mem_test.Base.{
  ℕ, ◌≤◌, ◌≡◌, refl, sym, ap, ◌∙◌, true, List, [], ◌∷◌, ◌++◌, length, arith, some,
}
use nx_mem_test.Base.Text.{codes}
use nx_mem_test.Types.{Status, pass, fail, aborted, unsupported}
use nx_mem_test.Screen.{visible_width}
use nx_mem_test.Screen.Width.{Piece, code, render, IsParameters}
use nx_mem_test.Screen.Rows.{tui_width, ansi, ansi_dim, ansi_cyan, ansi_white, section_top, kv}
use nx_mem_test.Screen.Rows.Spans.{is_plain, is_plain-IsPlain}
use nx_mem_test.Screen.Rows.Widths.{IsColor, AllWide, visible_width-kv, visible_width-section_top}
use nx_mem_test.Screen.Sections.{ansi_red, ansi_green, ansi_yellow, status_color}
use nx_mem_test.Screen.Sections.Printed.{Printed}
use nx_mem_test.Screen.Sections.Values.{literal}

-- A color that is one escape sequence.
pub record Color (color : List ℕ) : Type 0 where
  pub pieces : List Piece
  pub is_color : IsColor pieces
  pub rendered : render pieces ≡ color

-- A row whose label and value are short enough.
pub row-Wide :
    (label color value : List ℕ)
    → is_plain label ≡ true
    → length label ≤ 22
    → Color color
    → Printed 49 value
    → visible_width (some (kv label (some color) value)) ≡ tui_width
row-Wide label color value plain short c printed =
    ap (λ t. visible_width (some (kv label (some t) value))) (sym c.rendered)
    ∙ visible_width-kv label value c.pieces (is_plain-IsPlain label plain) printed.plain c.is_color
        (omega (arith, printed.short))

pub ansi-Color : (parameters : List ℕ) → IsParameters parameters → Color (ansi parameters)
ansi-Color parameters h = record {
  pieces = code parameters 0x6d ∷ [];
  is_color = ((h, refl, tt), refl);
  rendered = refl;
}

pub dim : Color ansi_dim
dim = ansi-Color (codes "2") (refl, tt)

pub red : Color ansi_red
red = ansi-Color (codes "31") (refl, (refl, tt))

pub green : Color ansi_green
green = ansi-Color (codes "32") (refl, (refl, tt))

pub yellow : Color ansi_yellow
yellow = ansi-Color (codes "33") (refl, (refl, tt))

pub cyan : Color ansi_cyan
cyan = ansi-Color (codes "36") (refl, (refl, tt))

pub white : Color ansi_white
white = ansi-Color (codes "37") (refl, (refl, tt))

pub status_color-Color : (status : Status) → Color (status_color status)
status_color-Color pass = green
status_color-Color fail = red
status_color-Color aborted = yellow
status_color-Color unsupported = dim

-- Rows that are all as wide as the screen.
pub record Wide (rows : List (List ℕ)) : Type 0 where
  pub all : AllWide rows

pub no_rows : Wide []
no_rows = record { all = tt }

infixr 20 ◌▸◌
infixl 25 ◌⊞◌
pub ◌▸◌ :
    {r : List ℕ} {rows : List (List ℕ)}
    → visible_width (some r) ≡ tui_width
    → Wide rows
    → Wide (r ∷ rows)
h ▸ k = record { all = (h, k.all) }

pub append-AllWide :
    (rows rows' : List (List ℕ)) → AllWide rows → AllWide rows' → AllWide (rows ++ rows')
append-AllWide [] rows' h k = k
append-AllWide (r ∷ rows) rows' h k = (h.0, append-AllWide rows rows' h.1 k)

pub ◌⊞◌ : {rows rows' : List (List ℕ)} → Wide rows → Wide rows' → Wide (rows ++ rows')
◌⊞◌ {rows} {rows'} h k = record { all = append-AllWide rows rows' h.all k.all }

pub plain_row :
    (label color value : List ℕ)
    → is_plain label ≡ true
    → length label ≤ 22
    → Color color
    → is_plain value ≡ true
    → length value ≤ 49
    → visible_width (some (kv label (some color) value)) ≡ tui_width
plain_row label color value plain short c plain' short' =
    row-Wide label color value plain short c (literal value plain' short')

pub top :
    (title : List ℕ)
    → is_plain title ≡ true
    → length title ≤ 73
    → visible_width (some (section_top title)) ≡ tui_width
top title plain short = visible_width-section_top title (is_plain-IsPlain title plain) short
