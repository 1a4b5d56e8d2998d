-- ===== src/Sed/Parse/Replacement/RoundTrip.antt =====
-- The replacement of `s`, written out and read back.
use websh.Base.{
  ℕ, ◌+◌, ◌-◌, ◌≤◌, ◌≡◌, ◌≢◌, refl, ap, ◌∙◌, Bool, true, false, ◌&&◌, ◌||◌, List, [], ◌∷◌, ◌++◌,
  append-nil, append_assoc, arith, ◌==◌, if◌then◌else◌, Bytes,
}
use websh.Sed.Types.{ReplPart, lit, group, case_op}
use websh.Sed.Parse.Replacement.{flush, is_case_op, replacement_loop, parse_replacement}

-- `&` and the backslash are escaped in a literal.
abbrev pub write_literal : Bytes → Bytes
write_literal [] = []
write_literal (c ∷ s) =
    (if c == b'&' || c == b'\\' then b'\\' ∷ c ∷ [] else c ∷ []) ++ write_literal s

abbrev pub write_part : ReplPart → Bytes
write_part (lit s) = write_literal s
write_part (group g) = b'\\' ∷ (b'0' + g) ∷ []
write_part (case_op c) = b'\\' ∷ c ∷ []

abbrev pub write_parts : List ReplPart → Bytes
write_parts [] = []
write_parts (p ∷ ps) = write_part p ++ write_parts ps

abbrev pub is_lit : ReplPart → Bool
is_lit (lit _) = true
is_lit _ = false

-- The parts that a replacement can have: no literal is empty or stands behind another one.
abbrev pub IsPart : ReplPart → Type 0
IsPart (lit s) = s ≢ []
IsPart (group g) = g ≤ 9
IsPart (case_op c) = is_case_op c ≡ true

abbrev pub AreParts : Bool → List ReplPart → Type 0
AreParts after_lit [] = Unit
AreParts after_lit (p ∷ ps) = (after_lit && is_lit p) ≡ false × IsPart p × AreParts (is_lit p) ps

replacement_loop-literal :
    (c : ℕ) (buf rest : Bytes)
    → replacement_loop buf ((if c == b'&' || c == b'\\' then b'\\' ∷ c ∷ [] else c ∷ []) ++ rest)
      ≡ replacement_loop (buf ++ c ∷ []) rest
unfolding replacement_loop
replacement_loop-literal c buf [] = ground arith
replacement_loop-literal c buf (d ∷ rest) = ground arith

replacement_loop-literals :
    (s buf rest : Bytes)
    → replacement_loop buf (write_literal s ++ rest) ≡ replacement_loop (buf ++ s) rest
replacement_loop-literals [] buf rest = rw append-nil
replacement_loop-literals (c ∷ s) buf rest =
    ap (replacement_loop buf) (append_assoc _ (write_literal s) rest)
    ∙ replacement_loop-literal c buf (write_literal s ++ rest)
    ∙ replacement_loop-literals s (buf ++ c ∷ []) rest
    ∙ ap (λ b. replacement_loop b rest) (append_assoc buf (c ∷ []) s)

replacement_loop-group :
    (g : ℕ) (buf rest : Bytes)
    → g ≤ 9
    → replacement_loop buf (b'\\' ∷ (b'0' + g) ∷ rest)
      ≡ flush buf ++ group g ∷ replacement_loop [] rest
unfolding replacement_loop
replacement_loop-group g buf rest h =
    ground (arith, ap (λ (n : ℕ). flush buf ++ group n ∷ replacement_loop [] rest) (minus g))
  where
    minus : (g : ℕ) → b'0' + g - b'0' ≡ g
    minus g = omega arith

replacement_loop-case_op :
    (c : ℕ) (buf rest : Bytes)
    → is_case_op c ≡ true
    → replacement_loop buf (b'\\' ∷ c ∷ rest) ≡ flush buf ++ case_op c ∷ replacement_loop [] rest
unfolding replacement_loop
replacement_loop-case_op c buf rest h = ground arith

flush-of_ne : (s : Bytes) → s ≢ [] → flush s ≡ lit s ∷ []
flush-of_ne [] h = absurd (h refl)
flush-of_ne (c ∷ s) h = refl

-- what is gathered in front of the parts
replacement_loop-parts :
    (ps : List ReplPart) (buf : Bytes) (after_lit : Bool)
    → AreParts after_lit ps
    → (buf ≢ [] → after_lit ≡ true)
    → replacement_loop buf (write_parts ps) ≡ flush buf ++ ps
unfolding replacement_loop
replacement_loop-parts [] buf after h k = rw append-nil
replacement_loop-parts (lit s ∷ ps) [] after h k =
    replacement_loop-literals s [] (write_parts ps)
    ∙ replacement_loop-parts ps s true h.2 (λ _. refl)
    ∙ ap (λ r. r ++ ps) (flush-of_ne s h.1)
replacement_loop-parts (lit s ∷ ps) (b ∷ buf) after h k = absurd (ground (arith, k))
replacement_loop-parts (group g ∷ ps) buf after h k =
    replacement_loop-group g buf (write_parts ps) h.1
    ∙ ap (λ r. flush buf ++ group g ∷ r)
        (replacement_loop-parts ps [] false h.2 (λ ne. absurd (ne refl)))
replacement_loop-parts (case_op c ∷ ps) buf after h k =
    replacement_loop-case_op c buf (write_parts ps) h.1
    ∙ ap (λ r. flush buf ++ case_op c ∷ r)
        (replacement_loop-parts ps [] false h.2 (λ ne. absurd (ne refl)))

-- A replacement of literals, groups 0 to 9 and case conversions, in which no literal is empty or
-- stands behind another, is read back as it was, when it is written with `&` and the backslash
-- escaped in the literals.
pub parse_replacement-write_parts :
    (ps : List ReplPart) → AreParts false ps → parse_replacement (write_parts ps) ≡ ps
unfolding parse_replacement
parse_replacement-write_parts ps h = replacement_loop-parts ps [] false h (λ ne. absurd (ne refl))
