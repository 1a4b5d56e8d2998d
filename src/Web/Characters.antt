-- ===== src/Web/Characters.antt =====
-- `partialRune` at a text that may end within a character.
use websh.Base.{
  ℕ, ◌+◌, ◌/◌, ◌%◌, ◌≤◌, ◌<◌, ◌≡◌, ◌≢◌, refl, ap, subst, ◌∙◌, not, List, [], ◌∷◌, ◌++◌, arith,
  Bytes, ltb, inl, inr, Bool-cases, length,
}
use websh.Base.Utf8.{encode, encode_rune, is_scalar}
use websh.Base.Paths.{reverse_onto}
use websh.Web.{partial_from, partial_rune}

-- A byte that stands behind the first of a character.
abbrev Follows : ℕ → Type 0
Follows c = (0x80 ≤ c) × (c < 0xC0)

-- The bytes of a character: the first says how many there are.
pub data Character : Bytes → Type 0 where
  one : (a : ℕ) → a < 0x80 → Character (a ∷ [])
  two : (a b : ℕ) → 0xC0 ≤ a → a < 0xE0 → Follows b → Character (a ∷ b ∷ [])
  three : (a b c : ℕ) → 0xE0 ≤ a → a < 0xF0 → Follows b → Follows c → Character (a ∷ b ∷ c ∷ [])
  four :
      (a b c d : ℕ) → 0xF0 ≤ a → Follows b → Follows c → Follows d → Character (a ∷ b ∷ c ∷ d ∷ [])

-- The start of a character, without all of it.
pub data Start : Bytes → Type 0 where
  nothing : Start []
  lead : (a : ℕ) → 0xC0 ≤ a → Start (a ∷ [])
  lead_one : (a b : ℕ) → 0xE0 ≤ a → Follows b → Start (a ∷ b ∷ [])
  lead_two : (a b c : ℕ) → 0xF0 ≤ a → Follows b → Follows c → Start (a ∷ b ∷ c ∷ [])

pub encode_rune-Character : (r : ℕ) → Character (encode_rune r)
unfolding encode_rune
encode_rune-Character r = elim (Bool-cases (ltb r 0x80)) [
  | inl e ↦ rw (encode_rune, e) (one r (ground (arith, e)))
  | inr e ↦ elim (Bool-cases (ltb r 0x800)) [
    | inl f ↦
        rw (encode_rune, e, f)
          (two (0xC0 + r / 64) (0x80 + r % 64) (omega arith) (ground (arith, f))
            (omega arith, omega arith))
    | inr f ↦ elim (Bool-cases (not (is_scalar r))) [
      | inl g ↦
          rw (encode_rune, e, f, g)
            (three 0xEF 0xBF 0xBD (omega arith) (omega arith) (omega arith, omega arith)
              (omega arith, omega arith))
      | inr g ↦ elim (Bool-cases (ltb r 0x10000)) [
        | inl i ↦
            rw (encode_rune, e, f, g, i)
              (three (0xE0 + r / 4096) (0x80 + r / 64 % 64) (0x80 + r % 64) (omega arith)
                (ground (arith, i)) (omega arith, omega arith) (omega arith, omega arith))
        | inr i ↦
            rw (encode_rune, e, f, g, i)
              (four (0xF0 + r / 262144) (0x80 + r / 4096 % 64) (0x80 + r / 64 % 64) (0x80 + r % 64)
                (omega arith) (omega arith, omega arith) (omega arith, omega arith)
                (omega arith, omega arith))
      ]
    ]
  ]
]

-- At the end of a text of characters nothing waits.
partial_from-Character :
    (ch out : Bytes) → Character ch → partial_from 3 1 (reverse_onto ch out) ≡ 0
unfolding partial_from reverse_onto
partial_from-Character ch out (one a h) = ground arith
partial_from-Character ch out (two a b h k f) = ground arith
partial_from-Character ch out (three a b c h k f g) = ground arith
partial_from-Character ch out (four a b c d h f g i) = ground arith

partial_from-Start :
    (t out : Bytes)
    → Start t
    → partial_from 3 1 out ≡ 0
    → partial_from 3 1 (reverse_onto t out) ≡ length t
unfolding partial_from reverse_onto
partial_from-Start t out nothing z = z
partial_from-Start t out (lead a h) z = ground arith
partial_from-Start t out (lead_one a b h f) z = ground arith
partial_from-Start t out (lead_two a b c h f g) z = ground arith

reverse_onto-append :
    (s t out : Bytes) → reverse_onto (s ++ t) out ≡ reverse_onto t (reverse_onto s out)
unfolding reverse_onto
reverse_onto-append [] t out = refl
reverse_onto-append (c ∷ s) t out = reverse_onto-append s t (c ∷ out)

partial_from-encode :
    (rs : List ℕ) (out : Bytes)
    → partial_from 3 1 out ≡ 0
    → partial_from 3 1 (reverse_onto (encode rs) out) ≡ 0
unfolding encode reverse_onto
partial_from-encode [] out h = h
partial_from-encode (r ∷ rs) out h =
    ap (partial_from 3 1) (reverse_onto-append (encode_rune r) (encode rs) out)
    ∙ partial_from-encode rs (reverse_onto (encode_rune r) out)
        (partial_from-Character (encode_rune r) out (encode_rune-Character r))

-- Behind characters, the start of one is what waits.
pub partial_rune-append :
    (rs : List ℕ) (t : Bytes) → Start t → partial_rune (encode rs ++ t) ≡ length t
unfolding partial_from partial_rune
partial_rune-append rs t s =
    ap (partial_from 3 1) (reverse_onto-append (encode rs) t [])
    ∙ partial_from-Start t (reverse_onto (encode rs) []) s (partial_from-encode rs [] refl)

append-ne-nil : (t : Bytes) (c : ℕ) (u : Bytes) → t ++ c ∷ u ≢ []
append-ne-nil [] c u h = cc
append-ne-nil (x ∷ t) c u h = cc

-- the first bytes of a character of one, of two, of three and of four
one-Start : (a : ℕ) (t : Bytes) (c : ℕ) (u : Bytes) → t ++ c ∷ u ≡ a ∷ [] → Start t
one-Start a [] c u h = nothing
one-Start a (x ∷ []) c u h = cc
one-Start a (x ∷ y ∷ t) c u h = cc

two-Start : (a b : ℕ) (t : Bytes) (c : ℕ) (u : Bytes) → 0xC0 ≤ a → t ++ c ∷ u ≡ a ∷ b ∷ [] → Start t
two-Start a b [] c u k h = nothing
two-Start a b (x ∷ []) c u k h = let e : a ≡ x = cc in lead x (omega arith)
two-Start a b (x ∷ y ∷ t) c u k h = let e : t ++ c ∷ u ≡ [] = cc in absurd (append-ne-nil t c u e)

three-Start :
    (a b d : ℕ) (t : Bytes) (c : ℕ) (u : Bytes)
    → 0xE0 ≤ a
    → Follows b
    → t ++ c ∷ u ≡ a ∷ b ∷ d ∷ []
    → Start t
three-Start a b d [] c u k f h = nothing
three-Start a b d (x ∷ []) c u k f h = let e : a ≡ x = cc in lead x (omega arith)
three-Start a b d (x ∷ y ∷ []) c u k f h =
    let e : a ≡ x = cc in let g : b ≡ y = cc in lead_one x y (omega arith) (subst Follows g f)
three-Start a b d (x ∷ y ∷ z ∷ t) c u k f h =
    let e : t ++ c ∷ u ≡ [] = cc in absurd (append-ne-nil t c u e)

four-Start :
    (a b d j : ℕ) (t : Bytes) (c : ℕ) (u : Bytes)
    → 0xF0 ≤ a
    → Follows b
    → Follows d
    → t ++ c ∷ u ≡ a ∷ b ∷ d ∷ j ∷ []
    → Start t
four-Start a b d j [] c u k f g h = nothing
four-Start a b d j (x ∷ []) c u k f g h = let e : a ≡ x = cc in lead x (omega arith)
four-Start a b d j (x ∷ y ∷ []) c u k f g h =
    let e : a ≡ x = cc in let i : b ≡ y = cc in lead_one x y (omega arith) (subst Follows i f)
four-Start a b d j (x ∷ y ∷ z ∷ []) c u k f g h =
    let e : a ≡ x = cc in
    let i : b ≡ y = cc in
    let o : d ≡ z = cc in lead_two x y z (omega arith) (subst Follows i f) (subst Follows o g)
four-Start a b d j (x ∷ y ∷ z ∷ v ∷ t) c u k f g h =
    let e : t ++ c ∷ u ≡ [] = cc in absurd (append-ne-nil t c u e)

-- a character that is not all there
pub Character-Start : (ch t : Bytes) (c : ℕ) (u : Bytes) → Character ch → t ++ c ∷ u ≡ ch → Start t
Character-Start ch t c u (one a k) h = one-Start a t c u h
Character-Start ch t c u (two a b k m f) h = two-Start a b t c u k h
Character-Start ch t c u (three a b d k m f g) h = three-Start a b d t c u k f h
Character-Start ch t c u (four a b d e k f g i) h = four-Start a b d e t c u k f g h
