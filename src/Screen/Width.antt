-- ===== src/Screen/Width.antt =====
-- The width of a text with escape sequences.
use nx_mem_test.Base.{
  ℕ, ◌+◌, ◌≡◌, refl, sym, ap, ◌∙◌, true, false, List, [], some, ◌∷◌, ◌++◌, length, ◌==◌, arith,
}
use mathlib.Core.List.{append_assoc, append-nil}
use nx_mem_test.Screen.{head, sequence, is_final, width_loop, visible_width}

-- What a text is put together from: plain characters, and escape sequences with their parameters
-- and their final character.
pub data Piece : Type 0 where
  plain : List ℕ → Piece
  code : List ℕ → ℕ → Piece

abbrev pub render : List Piece → List ℕ
render [] = []
render (plain text ∷ pieces) = text ++ render pieces
render (code parameters final ∷ pieces) = 0x1b ∷ 0x5b ∷ (parameters ++ (final ∷ render pieces))

abbrev pub plain_length : List Piece → ℕ
plain_length [] = 0
plain_length (plain text ∷ pieces) = length text + plain_length pieces
plain_length (code parameters final ∷ pieces) = plain_length pieces

-- No character is the escape character.
abbrev pub IsPlain : List ℕ → Type 0
IsPlain [] = Unit {0}
IsPlain (c ∷ s) = ((c == 0x1b) ≡ false) × IsPlain s

-- No character ends an escape sequence.
abbrev pub IsParameters : List ℕ → Type 0
IsParameters [] = Unit {0}
IsParameters (c ∷ s) = (is_final c ≡ false) × IsParameters s

abbrev pub IsText : List Piece → Type 0
IsText [] = Unit {0}
IsText (plain text ∷ pieces) = IsPlain text × IsText pieces
IsText (code parameters final ∷ pieces) =
    IsParameters parameters × (is_final final ≡ true) × IsText pieces

pub width_loop-plain :
    (text rest : List ℕ)
    → IsPlain text
    → width_loop head (text ++ rest) ≡ length text + width_loop head rest
unfolding width_loop
width_loop-plain [] rest h = omega arith
width_loop-plain (c ∷ text) rest h = rw h.0 (omega (arith, width_loop-plain text rest h.1))

width_loop-parameters :
    (parameters rest : List ℕ) (final : ℕ)
    → IsParameters parameters
    → is_final final ≡ true
    → width_loop sequence (parameters ++ (final ∷ rest)) ≡ width_loop head rest
unfolding width_loop
width_loop-parameters [] rest final h ends = rw ends refl
width_loop-parameters (c ∷ parameters) rest final h ends =
    rw h.0 (width_loop-parameters parameters rest final h.1 ends)

pub width_loop-render :
    (pieces : List Piece) (rest : List ℕ)
    → IsText pieces
    → width_loop head (render pieces ++ rest) ≡ plain_length pieces + width_loop head rest
unfolding width_loop
width_loop-render [] rest h = omega arith
width_loop-render (plain text ∷ pieces) rest h =
    ap (width_loop head) (append_assoc text (render pieces) rest)
    ∙ width_loop-plain text (render pieces ++ rest) h.0
    ∙ omega (arith, width_loop-render pieces rest h.1)
width_loop-render (code parameters final ∷ pieces) rest h =
    ap (width_loop sequence) (append_assoc parameters (final ∷ render pieces) rest)
    ∙ width_loop-parameters parameters (render pieces ++ rest) final h.0 h.1
    ∙ width_loop-render pieces rest h.2

-- For a text of plain characters, none of them the escape character, and of whole escape sequences,
-- the visible width is the number of the plain characters.
pub visible_width-render :
    (pieces : List Piece)
    → IsText pieces
    → visible_width (some (render pieces)) ≡ plain_length pieces
unfolding visible_width width_loop
visible_width-render pieces h =
    ap (width_loop head) (sym (append-nil (render pieces)))
    ∙ width_loop-render pieces [] h
    ∙ omega arith
