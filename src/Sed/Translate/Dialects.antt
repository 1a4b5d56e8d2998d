-- ===== src/Sed/Translate/Dialects.antt =====
-- The two dialects of `translate`, basic and extended, on expressions that both can write.
use websh.Base.{
  ℕ, ◌≡◌, ap, ◌∙◌, Bool, true, false, List, [], ◌∷◌, ◌++◌, ◌⊎◌, inl, inr, append-nil, append_assoc,
  arith, if◌then◌else◌, Bytes, codes, one_of,
}
use websh.Base.Result.{Result, ok, err}
use websh.Sed.Translate.{Step, step_to, translate_loop, translate, translate_escape}

-- A piece of an expression: an operator, an ordinary byte, or an operator's byte taken as such.
pub data Piece : Type 0 where
  opening closing alternative plus optional star any : Piece
  ordinary : ℕ → Piece
  literal : ℕ → Piece

-- The bytes that are operators bare in the extended dialect and escaped in the basic one; the
-- braces of a count are left out.
abbrev pub operators : Bytes
operators = codes "(){}+?|"

-- As the basic dialect writes a piece, and as the extended one does.
abbrev pub basic : Piece → Bytes
basic opening = codes "\\("
basic closing = codes "\\)"
basic alternative = codes "\\|"
basic plus = codes "\\+"
basic optional = codes "\\?"
basic star = codes "*"
basic any = codes "."
basic (ordinary c) = c ∷ []
basic (literal c) = c ∷ []

abbrev pub extended : Piece → Bytes
extended opening = codes "("
extended closing = codes ")"
extended alternative = codes "|"
extended plus = codes "+"
extended optional = codes "?"
extended star = codes "*"
extended any = codes "."
extended (ordinary c) = c ∷ []
extended (literal c) = b'\\' ∷ c ∷ []

-- An ordinary byte is no operator in either dialect; a literal one is an operator in the extended
-- dialect.
abbrev pub IsPiece : Piece → Type 0
IsPiece (ordinary c) = one_of (codes "(){}+?|\\[*^$") c ≡ false
IsPiece (literal c) = one_of operators c ≡ true
IsPiece _ = Unit

abbrev pub ArePieces : List Piece → Type 0
ArePieces [] = Unit
ArePieces (p ∷ ps) = IsPiece p × ArePieces ps

abbrev pub write_with : (Piece → Bytes) → List Piece → Bytes
write_with f [] = []
write_with f (p ∷ ps) = f p ++ write_with f ps

-- What one piece becomes in RE2 syntax, and whether it leaves the start of an expression behind it.
abbrev meaning : Bool → Piece → Bytes
meaning start opening = codes "("
meaning start closing = codes ")"
meaning start alternative = codes "|"
meaning start plus = if start then codes "\\+" else codes "+"
meaning start optional = if start then codes "\\?" else codes "?"
meaning start star = if start then codes "\\*" else codes "*"
meaning start any = codes "."
meaning start (ordinary c) = c ∷ []
meaning start (literal c) = b'\\' ∷ c ∷ []

abbrev starts : Piece → Bool
starts opening = true
starts alternative = true
starts _ = false

abbrev pub re2 : Bool → List Piece → Bytes
re2 start [] = []
re2 start (p ∷ ps) = meaning start p ++ re2 (starts p) ps

operator-cases :
    (c : ℕ)
    → one_of operators c ≡ true
    → (c ≡ b'(')
      ⊎ ((c ≡ b')') ⊎ ((c ≡ b'{') ⊎ ((c ≡ b'}') ⊎ ((c ≡ b'+') ⊎ ((c ≡ b'?') ⊎ (c ≡ b'|'))))))
operator-cases c h = ground arith

module _ (delim : ℕ) (free : one_of operators delim ≡ false) where
  basic-step :
      (p : Piece) (start : Bool) (out rest : Bytes)
      → IsPiece p
      → translate_loop false delim 0 start out (basic p ++ rest)
        ≡ translate_loop false delim 0 (starts p) (out ++ meaning start p) rest
  unfolding translate_loop
  basic-step opening start out rest h = ground arith
  basic-step closing start out rest h = ground arith
  basic-step alternative start out rest h = ground arith
  basic-step plus start out rest h = ground arith
  basic-step optional start out rest h = ground arith
  basic-step star start out rest h = ground arith
  basic-step any start out rest h = ground arith
  basic-step (ordinary c) start out rest h = ground arith
  basic-step (literal c) start out rest h = ground arith

  escape-literal :
      (c : ℕ) (start : Bool)
      → one_of operators c ≡ true
      → translate_escape true delim start c ≡ ok (step_to (b'\\' ∷ c ∷ []) 1 false)
  unfolding translate_escape
  escape-literal c start h = elim (operator-cases c h) [
    | inl e ↦ rw e (ground arith)
    | inr (inl e) ↦ rw e (ground arith)
    | inr (inr (inl e)) ↦ rw e (ground arith)
    | inr (inr (inr (inl e))) ↦ rw e (ground arith)
    | inr (inr (inr (inr (inl e)))) ↦ rw e (ground arith)
    | inr (inr (inr (inr (inr (inl e))))) ↦ rw e (ground arith)
    | inr (inr (inr (inr (inr (inr e))))) ↦ rw e (ground arith)
  ]

  -- what the loop does with the step of an escape
  abbrev after_escape : ℕ → Bytes → Bytes → Result Step → Result Bytes
  after_escape c out rest (err e) = err e
  after_escape c out rest (ok s) =
      translate_loop true delim s.taken s.flag (out ++ s.out) (c ∷ rest)

  literal-step :
      (c : ℕ) (start : Bool) (out rest : Bytes)
      → translate_escape true delim start c ≡ ok (step_to (b'\\' ∷ c ∷ []) 1 false)
      → translate_loop true delim 0 start out (b'\\' ∷ c ∷ rest)
        ≡ translate_loop true delim 0 false (out ++ b'\\' ∷ c ∷ []) rest
  unfolding translate_loop
  literal-step c start out rest h = ap (after_escape c out rest) h

  extended-step :
      (p : Piece) (start : Bool) (out rest : Bytes)
      → IsPiece p
      → translate_loop true delim 0 start out (extended p ++ rest)
        ≡ translate_loop true delim 0 (starts p) (out ++ meaning start p) rest
  unfolding translate_loop
  extended-step opening start out rest h = ground arith
  extended-step closing start out rest h = ground arith
  extended-step alternative start out rest h = ground arith
  extended-step plus start out rest h = ground arith
  extended-step optional start out rest h = ground arith
  extended-step star start out rest h = ground arith
  extended-step any start out rest h = ground arith
  extended-step (ordinary c) start out rest h = ground arith
  extended-step (literal c) start out rest h =
      literal-step c start out rest (escape-literal c start h)

  translate_loop-basic :
      (ps : List Piece) (start : Bool) (out : Bytes)
      → ArePieces ps
      → translate_loop false delim 0 start out (write_with basic ps) ≡ ok (out ++ re2 start ps)
  translate_loop-basic [] start out h = unfold translate_loop in rw append-nil
  translate_loop-basic (p ∷ ps) start out (h, hs) =
      basic-step p start out (write_with basic ps) h
      ∙ translate_loop-basic ps (starts p) (out ++ meaning start p) hs
      ∙ ap ok (append_assoc out (meaning start p) (re2 (starts p) ps))

  translate_loop-extended :
      (ps : List Piece) (start : Bool) (out : Bytes)
      → ArePieces ps
      → translate_loop true delim 0 start out (write_with extended ps) ≡ ok (out ++ re2 start ps)
  translate_loop-extended [] start out h = unfold translate_loop in rw append-nil
  translate_loop-extended (p ∷ ps) start out (h, hs) =
      extended-step p start out (write_with extended ps) h
      ∙ translate_loop-extended ps (starts p) (out ++ meaning start p) hs
      ∙ ap ok (append_assoc out (meaning start p) (re2 (starts p) ps))

  -- An expression of groups, alternatives, `+`, `?`, `*`, `.` and bytes, written in the basic
  -- dialect or in the extended one, becomes the same RE2 text: the operators bare, but for a
  -- repetition that begins an expression, which is escaped, and the operator bytes that are meant
  -- literally escaped. The delimiter is none of `(){}+?|`.
  pub translate-dialects :
      (ps : List Piece)
      → ArePieces ps
      → (translate (write_with basic ps) false delim ≡ ok (re2 true ps))
        × (translate (write_with extended ps) true delim ≡ ok (re2 true ps))
  unfolding translate
  translate-dialects ps h =
      (translate_loop-basic ps true [] h, translate_loop-extended ps true [] h)
