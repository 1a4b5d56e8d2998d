-- ===== src/Ssh/Patterns/Globs.antt =====
-- The names that a pattern of `*` and `?` stands for.
use websh.Base.{
  ℕ, ◌≡◌, ◌↔◌, refl, ap, ◌||◌, Bool, true, false, [], ◌∷◌, ◌++◌, ◌==◌, Bytes, arith, Bool-cases,
  inl, inr,
}
use websh.Ssh.Patterns.{any_suffix, match_byte, glob_match}

-- A name is cut into pieces, one for each byte of the pattern: any text for a `*`, any byte for a
-- `?`, and the byte itself for another.
pub data Globs : Bytes → Bytes → Type 0 where
  done : Globs [] []
  star :
      {p s : Bytes} (c : ℕ) (a b : Bytes)
      → (c == b'*') ≡ true
      → s ≡ a ++ b
      → Globs p b
      → Globs (c ∷ p) s
  one :
      {p s : Bytes} (c d : ℕ)
      → (c == b'*') ≡ false
      → (c == b'?' || c == d) ≡ true
      → Globs p s
      → Globs (c ∷ p) (d ∷ s)

module _ (f : Bytes → Bool) where
  any_suffix-split :
      (s : Bytes) → any_suffix f s ≡ true → (a b : Bytes) × (s ≡ a ++ b) × (f b ≡ true)
  unfolding any_suffix
  any_suffix-split [] h = ([], [], refl, h)
  any_suffix-split (c ∷ s) h = elim (Bool-cases (any_suffix f s)) [
    | inl k ↦ let (a, b, e, m) = any_suffix-split s k in (c ∷ a, b, ap (◌∷◌ c) e, m)
    | inr k ↦ ([], c ∷ s, refl, ground (arith, k, h))
  ]

  any_suffix-of_split : (a b : Bytes) → f b ≡ true → any_suffix f (a ++ b) ≡ true
  unfolding any_suffix
  any_suffix-of_split [] [] m = m
  any_suffix-of_split [] (c ∷ b) m = ground (arith, m)
  any_suffix-of_split (c ∷ a) b m = ground (arith, any_suffix-of_split a b m)

glob_match_sound : (p s : Bytes) → glob_match p s ≡ true → Globs p s
unfolding glob_match match_byte
glob_match_sound [] [] h = done
glob_match_sound [] (d ∷ s) h = absurd (ground arith)
glob_match_sound (c ∷ p) [] h = elim (Bool-cases (c == b'*')) [
  | inl k ↦
      let (a, b, e, m) = any_suffix-split (glob_match p) [] (rw k at h) in
      star c a b k e (glob_match_sound p b m)
  | inr k ↦ absurd (ground (arith, k, h))
]
glob_match_sound (c ∷ p) (d ∷ s) h = elim (Bool-cases (c == b'*')) [
  | inl k ↦
      let (a, b, e, m) = any_suffix-split (glob_match p) (d ∷ s) (rw k at h) in
      star c a b k e (glob_match_sound p b m)
  | inr k ↦
      let both : ((c == b'?' || c == d) ≡ true) × (glob_match p s ≡ true) = ground (arith, k, h) in
      one c d k both.0 (glob_match_sound p s both.1)
]

glob_match_complete : (p s : Bytes) → Globs p s → glob_match p s ≡ true
unfolding glob_match match_byte
glob_match_complete _ _ done = refl
glob_match_complete _ _ (star {p} {s} c a b k e g) =
    rw (k, e) (any_suffix-of_split (glob_match p) a b (glob_match_complete p b g))
glob_match_complete _ _ (one {p} {s} c d k m g) = ground (arith, k, m, glob_match_complete p s g)

-- The code matches a name against a pattern exactly when the name can be cut into the pattern's
-- bytes, with any one byte for a `?` and any text, the empty one included, for a `*`.
pub glob_match_iff : (p s : Bytes) → (glob_match p s ≡ true) ↔ Globs p s
glob_match_iff p s = (glob_match_sound p s, glob_match_complete p s)
