-- ===== src/ReportText/Lines.antt =====
-- Reading a report: its lines, and the values in them.
use nx_mem_test.Base.{
  ℕ, zero, suc, ◌≡◌, refl, ap, ◌∙◌, Bool, true, not, ◌&&◌, List, [], ◌∷◌, ◌++◌, arith, ◌==◌,
  if◌then◌else◌,
}
use mathlib.Core.List.{append_assoc}
use nx_mem_test.Base.Text.{codes}
use nx_mem_test.Base.Digits.{IsLine, append-IsLine}
use nx_mem_test.ReportText.{text_of}

-- A character in front of the lines that follow it.
abbrev extend : ℕ → List (List ℕ) → List (List ℕ)
extend c [] = (c ∷ []) ∷ []
extend c (line ∷ lines) = (c ∷ line) ∷ lines

-- The lines of a text; a line feed ends each of them.
abbrev pub lines : List ℕ → List (List ℕ)
lines [] = []
lines (c ∷ s) = if c == 10 then [] ∷ lines s else extend c (lines s)

pub lines-row : (row rest : List ℕ) → IsLine row → lines (row ++ (10 ∷ rest)) ≡ row ∷ lines rest
lines-row [] rest h = refl
lines-row (c ∷ row) rest h = rw h.0 (ap (extend c) (lines-row row rest h.1))

-- What stands behind the first colon and the blank after it.
abbrev tail : List ℕ → List ℕ
tail [] = []
tail (c ∷ s) = s

abbrev pub behind : List ℕ → List ℕ
behind [] = []
behind (c ∷ s) = if c == b':' then tail s else behind s

-- The same behind `0x`.
abbrev pub behind_0x : List ℕ → List ℕ
behind_0x line = tail (tail (behind line))

-- Line number `k` of a text.
abbrev pub line_at : ℕ → List (List ℕ) → List ℕ
line_at k [] = []
line_at zero (line ∷ ls) = line
line_at (suc k) (line ∷ ls) = line_at k ls

abbrev is_line : List ℕ → Bool
is_line [] = true
is_line (c ∷ s) = not (c == 10) && is_line s

pub is_line-IsLine : (s : List ℕ) → is_line s ≡ true → IsLine s
is_line-IsLine [] h = tt
is_line-IsLine (c ∷ s) h = (ground arith, is_line-IsLine s (ground arith))

abbrev pub AllLines : List (List ℕ × List ℕ) → Type 0
AllLines [] = Unit {0}
AllLines (row ∷ rows) = (is_line row.0 ≡ true) × IsLine row.1 × AllLines rows

abbrev pub joined : List (List ℕ × List ℕ) → List (List ℕ)
joined [] = []
joined (row ∷ rows) = (row.0 ++ row.1) ∷ joined rows

pub lines-text_of :
    (rows : List (List ℕ × List ℕ)) → AllLines rows → lines (text_of rows) ≡ joined rows
lines-text_of [] h = refl
lines-text_of (row ∷ rows) h =
    ap lines (append_assoc (row.0 ++ row.1) (codes "\n") (text_of rows))
    ∙ lines-row (row.0 ++ row.1) (text_of rows)
        (append-IsLine row.0 row.1 (is_line-IsLine row.0 h.0) h.1)
    ∙ ap (λ ls. (row.0 ++ row.1) ∷ ls) (lines-text_of rows h.2)
