-- ===== src/Edit/Saved.antt =====
-- A text that is saved, and opened again.
use websh.Base.{
  trim_newline, ℕ, ◌-◌, ◌≡◌, refl, sym, ap, ap₂, ◌∙◌, true, false, List, [], ◌∷◌, ◌++◌, ◌==◌, Bytes,
  arith, append_assoc, map, length, take, ends_in, split_lines, length-append,
}
use websh.Base.Parts.{take-length}
use websh.Base.Utf8.{encode, runes}
use websh.Edit.Buffer.{content, load}

-- Each line comes back from its encoding, which has no newline.
abbrev pub NoNewline : Bytes → Type 0
NoNewline [] = Unit
NoNewline (c ∷ s) = ((c == b'\n') ≡ false) × NoNewline s

abbrev pub ArePlain : List (List ℕ) → Type 0
ArePlain [] = Unit
ArePlain (l ∷ ls) = (runes (encode l) ≡ l) × NoNewline (encode l) × ArePlain ls

-- the lines with newlines between them
abbrev joined : List ℕ → List (List ℕ) → Bytes
joined l [] = encode l
joined l (m ∷ ms) = encode l ++ b'\n' ∷ joined m ms

content-joined : (l : List ℕ) (ls : List (List ℕ)) → content (l ∷ ls) ≡ joined l ls ++ b'\n' ∷ []
unfolding content
content-joined l [] = refl
content-joined l (m ∷ ms) =
    ap (λ x. encode l ++ b'\n' ∷ x) (content-joined m ms)
    ∙ sym (append_assoc (encode l) (b'\n' ∷ joined m ms) (b'\n' ∷ []))

ends_in-last : (b : ℕ) (s : Bytes) → ends_in b (s ++ b ∷ []) ≡ true
unfolding ends_in
ends_in-last b [] = ground arith
ends_in-last b (c ∷ []) = ground arith
ends_in-last b (c ∷ d ∷ s) = ends_in-last b (d ∷ s)

trim_newline-last : (s : Bytes) → trim_newline (s ++ b'\n' ∷ []) ≡ s
unfolding trim_newline
trim_newline-last s =
    let e : length (s ++ b'\n' ∷ []) - 1 ≡ length s = omega (arith, length-append s (b'\n' ∷ [])) in
    rw (ends_in-last b'\n' s) (ap (λ n. take n (s ++ b'\n' ∷ [])) e ∙ take-length s (b'\n' ∷ []))

split_lines-plain : (s : Bytes) → NoNewline s → split_lines s ≡ (s, [])
unfolding split_lines
split_lines-plain [] h = refl
split_lines-plain (c ∷ s) h = rw (h.0, split_lines-plain s h.1) refl

split_lines-newline :
    (s t : Bytes)
    → NoNewline s
    → split_lines (s ++ b'\n' ∷ t) ≡ (s, (split_lines t).0 ∷ (split_lines t).1)
unfolding split_lines
split_lines-newline [] t h = refl
split_lines-newline (c ∷ s) t h = rw (h.0, split_lines-newline s t h.1) refl

lines_of : Bytes → List (List ℕ)
lines_of s = runes (split_lines s).0 ∷ map runes (split_lines s).1

lines_of-joined :
    (l : List ℕ) (ls : List (List ℕ)) → ArePlain (l ∷ ls) → lines_of (joined l ls) ≡ l ∷ ls
unfolding lines_of
lines_of-joined l [] (r, n, p) =
    ap (λ x. runes x.0 ∷ map runes x.1) (split_lines-plain (encode l) n) ∙ ap (λ x. x ∷ []) r
lines_of-joined l (m ∷ ms) (r, n, p) =
    ap (λ x. runes x.0 ∷ map runes x.1) (split_lines-newline (encode l) (joined m ms) n)
    ∙ ap₂ ◌∷◌ r (lines_of-joined m ms p)

-- What `save` writes is read back as the same lines, for a text of one line or more whose lines
-- come back from their UTF-8 encoding and have no newline in it.
pub load-content :
    (l : List ℕ) (ls : List (List ℕ)) → ArePlain (l ∷ ls) → load (content (l ∷ ls)) ≡ l ∷ ls
unfolding load lines_of
load-content l ls p =
    ap (λ s. lines_of (trim_newline s)) (content-joined l ls)
    ∙ (ap lines_of (trim_newline-last (joined l ls)) ∙ lines_of-joined l ls p)
