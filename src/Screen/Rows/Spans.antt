-- ===== src/Screen/Rows/Spans.antt =====
-- How far the pieces of a row move the cursor.
use nx_mem_test.Base.{
  ℕ, zero, suc, ◌+◌, ◌<◌, ◌≡◌, refl, sym, ap, ◌∙◌, true, false, Bool, not, ◌&&◌, List, [], ◌∷◌,
  ◌++◌, length, some, arith, ◌==◌, leb,
}
use mathlib.Core.List.{append_assoc, append-nil}
use nx_mem_test.Base.Text.{codes, replicate, length-replicate}
use nx_mem_test.Screen.{head, width_loop, visible_width}
use nx_mem_test.Screen.Width.{
  IsPlain, IsParameters, Piece, code, IsText, render, plain_length, width_loop-plain,
  width_loop-render,
}
use nx_mem_test.Screen.Rows.{
  tui_width, ansi, ansi_cyan, ansi_reset, ansi_bold, ansi_dim, ansi_white, fill_chars,
}

-- The text counts `n` in front of any other text.
pub record Spans (n : ℕ) (s : List ℕ) : Type 0 where
  pub before : (rest : List ℕ) → width_loop head (s ++ rest) ≡ n + width_loop head rest

infixl 30 ◌⊹◌
pub ◌⊹◌ : {a b : ℕ} {s t : List ℕ} → Spans a s → Spans b t → Spans (a + b) (s ++ t)
◌⊹◌ {a} {b} {s} {t} hs ht = record {
  before = λ rest.
      ap (width_loop head) (append_assoc s t rest)
      ∙ hs.before (t ++ rest)
      ∙ omega (arith, ht.before rest);
}

pub plain-Spans : (s : List ℕ) → IsPlain s → Spans (length s) s
plain-Spans s h = record { before = λ rest. width_loop-plain s rest h }

pub pieces-Spans :
    (pieces : List Piece) → IsText pieces → Spans (plain_length pieces) (render pieces)
pieces-Spans pieces h = record { before = λ rest. width_loop-render pieces rest h }

ansi-Spans : (parameters : List ℕ) → IsParameters parameters → Spans 0 (ansi parameters)
ansi-Spans parameters h = pieces-Spans (code parameters 0x6d ∷ []) (h, refl, tt)

pub cyan-Spans : Spans 0 ansi_cyan
cyan-Spans = ansi-Spans (codes "36") (refl, (refl, tt))

pub reset-Spans : Spans 0 ansi_reset
reset-Spans = ansi-Spans (codes "0") (refl, tt)

pub bold-Spans : Spans 0 ansi_bold
bold-Spans = ansi-Spans (codes "1") (refl, tt)

pub dim-Spans : Spans 0 ansi_dim
dim-Spans = ansi-Spans (codes "2") (refl, tt)

pub white-Spans : Spans 0 ansi_white
white-Spans = ansi-Spans (codes "37") (refl, (refl, tt))

abbrev pub is_plain : List ℕ → Bool
is_plain [] = true
is_plain (c ∷ s) = not (c == 0x1b) && is_plain s

pub is_plain-IsPlain : (s : List ℕ) → is_plain s ≡ true → IsPlain s
is_plain-IsPlain [] h = tt
is_plain-IsPlain (c ∷ s) h = (ground arith, is_plain-IsPlain s (ground arith))

pub literal-Spans : (s : List ℕ) → is_plain s ≡ true → Spans (length s) s
literal-Spans s h = plain-Spans s (is_plain-IsPlain s h)

pub replicate-IsPlain : (n c : ℕ) → (c == 0x1b) ≡ false → IsPlain (replicate n c)
replicate-IsPlain zero c h = tt
replicate-IsPlain (suc n) c h = (h, replicate-IsPlain n c h)

pub replicate-Spans : (n c : ℕ) → (c == 0x1b) ≡ false → Spans n (replicate n c)
replicate-Spans n c h = record {
  before = λ rest.
      (plain-Spans (replicate n c) (replicate-IsPlain n c h)).before rest
      ∙ omega (arith, length-replicate n c);
}

pub fill-Spans :
    (c count : ℕ)
    → (c == 0x1b) ≡ false
    → count < tui_width
    → Spans count (fill_chars tui_width c count)
unfolding fill_chars
fill-Spans c count h lt =
    let below : leb tui_width count ≡ false = ground arith in rw below (replicate-Spans count c h)

pub row-width :
    {n : ℕ} (s : List ℕ) → Spans n s → n ≡ tui_width → visible_width (some s) ≡ tui_width
unfolding visible_width width_loop
row-width {n} s h e = ap (width_loop head) (sym (append-nil s)) ∙ h.before [] ∙ omega (arith, e)
