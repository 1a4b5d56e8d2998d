-- ===== src/Web/Parted.antt =====
-- Where `partialRune` cuts a text of characters.
use websh.Base.{
  ℕ, ◌-◌, ◌≡◌, ap₂, refl, sym, ap, subst, ◌∙◌, List, [], ◌∷◌, ◌++◌, append_assoc, arith, Bytes,
  length, take, drop, length-append,
}
use websh.Base.Utf8.{encode, encode_rune}
use websh.Web.{partial_rune}
use websh.Web.Characters.{
  Start, nothing, encode_rune-Character, partial_rune-append, Character-Start,
}

-- A text that is whole characters, and the start of one that what comes later ends.
pub record Parted (rs : List ℕ) (b later : Bytes) : Type 0 where
  pub whole : List ℕ
  pub left : List ℕ
  pub start : Bytes
  pub runes : whole ++ left ≡ rs
  pub parts : encode whole ++ start ≡ b
  pub goes_on : start ++ later ≡ encode left
  pub start-Start : Start start
  pub ends : later ≡ [] → start ≡ []

-- the next character is all in the text, or the text is a start of it
data Next (b later ch s : Bytes) : Type 0 where
  past : (m : Bytes) → ch ++ m ≡ b → m ++ later ≡ s → Next b later ch s
  within : (c : ℕ) (u : Bytes) → b ++ c ∷ u ≡ ch → (c ∷ u) ++ s ≡ later → Next b later ch s

next_character : (b later ch s : Bytes) → b ++ later ≡ ch ++ s → Next b later ch s
next_character b later [] s h = past b refl h
next_character [] later (c ∷ ch) s h = within c ch refl (sym h)
next_character (x ∷ b) later (c ∷ ch) s h =
    let e : c ≡ x = cc in
    let rest : b ++ later ≡ ch ++ s = cc in go e (next_character b later ch s rest)
  where
    go : c ≡ x → Next b later ch s → Next (x ∷ b) later (c ∷ ch) s
    go e (past m f g) = past m (ap₂ ◌∷◌ e f) g
    go e (within d u f g) = within d u (ap₂ ◌∷◌ (sym e) f) g

pub text-Parted : (rs : List ℕ) (b later : Bytes) → b ++ later ≡ encode rs → Parted rs b later
unfolding encode
text-Parted [] [] later h = record {
  whole = [];
  left = [];
  runes = refl;
  start = [];
  parts = refl;
  goes_on = h;
  start-Start = nothing;
  ends = λ e. refl;
}
text-Parted [] (c ∷ b) later h = cc
text-Parted (r ∷ rs) b later h =
    go (next_character b later (encode_rune r) (encode rs) h) (λ m e. text-Parted rs m later e)
  where
    go :
        Next b later (encode_rune r) (encode rs)
        → ((m : Bytes) → m ++ later ≡ encode rs → Parted rs m later)
        → Parted (r ∷ rs) b later
    go (past m e f) ih =
        let p = ih m f in
        record {
          whole = r ∷ p.whole;
          left = p.left;
          runes = ap (◌∷◌ r) p.runes;
          start = p.start;
          parts =
              append_assoc (encode_rune r) (encode p.whole) p.start
              ∙ (ap (λ x. encode_rune r ++ x) p.parts ∙ e);
          goes_on = p.goes_on;
          start-Start = p.start-Start;
          ends = p.ends;
        }
    go (within c u e f) ih = record {
      whole = [];
      left = r ∷ rs;
      runes = refl;
      start = b;
      parts = refl;
      goes_on = h;
      start-Start = Character-Start (encode_rune r) b c u (encode_rune-Character r) e;
      ends = λ z. cc;
    }

the_length : (s t : Bytes) → length (s ++ t) - length t ≡ length s
the_length s t = omega (arith, length-append s t)

take-front : (s t : Bytes) → take (length (s ++ t) - length t) (s ++ t) ≡ s
take-front s t = ap (λ n. take n (s ++ t)) (the_length s t) ∙ go s t
  where
    go : (s t : Bytes) → take (length s) (s ++ t) ≡ s
    go [] t = refl
    go (c ∷ s) t = ap (◌∷◌ c) (go s t)

drop-front : (s t : Bytes) → drop (length (s ++ t) - length t) (s ++ t) ≡ t
drop-front s t = ap (λ n. drop n (s ++ t)) (the_length s t) ∙ go s t
  where
    go : (s t : Bytes) → drop (length s) (s ++ t) ≡ t
    go [] t = refl
    go (c ∷ s) t = go s t

-- where `partialRune` cuts a text
pub Parted-take :
    (rs : List ℕ) (b later : Bytes) (p : Parted rs b later)
    → take (length b - partial_rune b) b ≡ encode p.whole
Parted-take rs b later p =
    subst (λ x. take (length x - partial_rune x) x ≡ encode p.whole) p.parts
      (ap (λ n. take (length (encode p.whole ++ p.start) - n) (encode p.whole ++ p.start))
          (partial_rune-append p.whole p.start p.start-Start)
        ∙ take-front (encode p.whole) p.start)

pub Parted-drop :
    (rs : List ℕ) (b later : Bytes) (p : Parted rs b later)
    → drop (length b - partial_rune b) b ≡ p.start
Parted-drop rs b later p =
    subst (λ x. drop (length x - partial_rune x) x ≡ p.start) p.parts
      (ap (λ n. drop (length (encode p.whole ++ p.start) - n) (encode p.whole ++ p.start))
          (partial_rune-append p.whole p.start p.start-Start)
        ∙ drop-front (encode p.whole) p.start)
