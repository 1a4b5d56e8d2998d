-- ===== src/Prompt/Quoted.antt =====
-- Any text can be written in PS1: the escapes of its bytes expand to it.
use websh.Base.{
  ℕ, suc, ◌+◌, ◌*◌, ◌/◌, ◌%◌, ◌<◌, ◌≡◌, refl, sym, ap, ◌∙◌, Bool, true, false, ◌||◌, none, [], ◌∷◌,
  ◌++◌, ◌==◌, if◌then◌else◌, arith, Bytes, ==→eq, within,
}
use websh.Prompt.{
  PromptSource, byte_escape, text_escape, time_layout, octal_length, octal_value, parse_octal,
  octal_or_plain, escaped, piece, expand_rest, expand_prompt,
}

-- a byte as `\nnn`
unfoldable pub octal : ℕ → Bytes
octal c = b'\\' ∷ (b'0' + c / 64) ∷ (b'0' + c / 8 % 8) ∷ (b'0' + c % 8) ∷ []

-- a byte as it is written in PS1: in octal where `wanted` or a dollar, and a backslash twice
unfoldable pub quote_byte : (ℕ → Bool) → ℕ → Bytes
unfolding octal
quote_byte wanted c =
    if wanted c || c == b'$' then octal c else if c == b'\\' then b'\\' ∷ b'\\' ∷ [] else c ∷ []

unfoldable pub quote : (ℕ → Bool) → Bytes → Bytes
unfolding quote_byte
quote wanted [] = []
quote wanted (c ∷ s) = quote_byte wanted c ++ quote wanted s

-- Every element is a byte.
pub data AreBytes : Bytes → Type 0 where
  no_bytes : AreBytes []
  one_byte : {c : ℕ} {s : Bytes} → c < 256 → AreBytes s → AreBytes (c ∷ s)

module _ (s : PromptSource) where
  byte_escape-digit : (a : ℕ) → a < 10 → byte_escape s (b'0' + a) ≡ none
  unfolding byte_escape
  byte_escape-digit a h = ground (arith, h)

  text_escape-digit : (a : ℕ) → a < 10 → text_escape s (b'0' + a) ≡ none
  unfolding text_escape
  text_escape-digit a h = ground (arith, h)

time_layout-digit : (a : ℕ) → a < 10 → time_layout (b'0' + a) ≡ none
unfolding time_layout
time_layout-digit a h = ground (arith, h)

octal_length-digit :
    (n a : ℕ) (t : Bytes) → a < 8 → octal_length (suc n) ((b'0' + a) ∷ t) ≡ suc (octal_length n t)
unfolding octal_length
octal_length-digit n a t h = ground (arith, h)

octal_length-zero : (t : Bytes) → octal_length 0 t ≡ 0
unfolding octal_length
octal_length-zero t = refl

octal_length-three :
    (a b d : ℕ) (t : Bytes)
    → a < 8
    → b < 8
    → d < 8
    → octal_length 3 ((b'0' + a) ∷ (b'0' + b) ∷ (b'0' + d) ∷ t) ≡ 3
octal_length-three a b d t h i j =
    octal_length-digit 2 a _ h
    ∙ ap suc (
        octal_length-digit 1 b _ i
        ∙ ap suc (octal_length-digit 0 d t j ∙ ap suc (octal_length-zero t)))

parse_octal-three :
    (a b d : ℕ)
    → a < 4
    → b < 8
    → d < 8
    → parse_octal ((b'0' + a) ∷ (b'0' + b) ∷ (b'0' + d) ∷ []) ≡ (a * 8 + b) * 8 + d
unfolding octal_value parse_octal
parse_octal-three a b d h i j = ground arith

octal_or_plain-three :
    (a b d : ℕ) (t : Bytes)
    → a < 4
    → b < 8
    → d < 8
    → octal_or_plain (b'0' + a) ((b'0' + b) ∷ (b'0' + d) ∷ t) ≡ (((a * 8 + b) * 8 + d) ∷ [], 3)
unfolding octal_or_plain
octal_or_plain-three a b d t h i j =
    let small : within b'0' b'3' (b'0' + a) ≡ true = ground (arith, h) in
    let three = octal_length-three a b d t (omega arith) i j in
    let value = parse_octal-three a b d h i j in rw (octal_or_plain, small, three, value) refl

module _ (s : PromptSource) where
  escaped-three :
      (a b d : ℕ) (t : Bytes)
      → a < 4
      → b < 8
      → d < 8
      → escaped s (b'0' + a) ((b'0' + b) ∷ (b'0' + d) ∷ t) ≡ (((a * 8 + b) * 8 + d) ∷ [], 3)
  unfolding escaped
  escaped-three a b d t h i j =
      rw
        (
          escaped,
          byte_escape-digit s a (omega arith),
          text_escape-digit s a (omega arith),
          time_layout-digit a (omega arith),
        )
        (octal_or_plain-three a b d t h i j)

  expand_rest-three :
      (a b d : ℕ) (t : Bytes)
      → a < 4
      → b < 8
      → d < 8
      → expand_rest s 0 (b'\\' ∷ (b'0' + a) ∷ (b'0' + b) ∷ (b'0' + d) ∷ t)
        ≡ ((a * 8 + b) * 8 + d) ∷ expand_rest s 0 t
  unfolding expand_rest piece
  expand_rest-three a b d t h i j = rw (expand_rest, piece, escaped-three a b d t h i j) refl

  expand_rest-octal :
      (c : ℕ) (t : Bytes) → c < 256 → expand_rest s 0 (octal c ++ t) ≡ c ∷ expand_rest s 0 t
  unfolding octal
  expand_rest-octal c t h =
      let value : (c / 64 * 8 + c / 8 % 8) * 8 + c % 8 ≡ c = omega arith in
      expand_rest-three (c / 64) (c / 8 % 8) (c % 8) t (omega arith) (omega arith) (omega arith)
      ∙ ap (λ n. n ∷ expand_rest s 0 t) value

  expand_rest-plain :
      (c : ℕ) (t : Bytes)
      → (c == b'$') ≡ false
      → (c == b'\\') ≡ false
      → expand_rest s 0 (c ∷ t) ≡ c ∷ expand_rest s 0 t
  unfolding expand_rest piece
  expand_rest-plain c t e f = rw (expand_rest, piece, e, f) refl

  expand_rest-backslash :
      (t : Bytes) → expand_rest s 0 (b'\\' ∷ b'\\' ∷ t) ≡ b'\\' ∷ expand_rest s 0 t
  unfolding byte_escape escaped expand_rest piece
  expand_rest-backslash t = refl

  expand_rest-quote_byte :
      (wanted : ℕ → Bool) (c : ℕ) (t : Bytes)
      → c < 256
      → expand_rest s 0 (quote_byte wanted c ++ t) ≡ c ∷ expand_rest s 0 t
  unfolding quote_byte
  expand_rest-quote_byte wanted c t h = go (wanted c || c == b'$') (c == b'\\') refl refl
    where
      go :
          (b d : Bool)
          → (wanted c || c == b'$') ≡ b
          → (c == b'\\') ≡ d
          → expand_rest s 0 ((if b then octal c else if d then b'\\' ∷ b'\\' ∷ [] else c ∷ []) ++ t)
            ≡ c ∷ expand_rest s 0 t
      go true d e f = expand_rest-octal c t h
      go false true e f =
          expand_rest-backslash t ∙ ap (λ n. n ∷ expand_rest s 0 t) (sym (==→eq c b'\\' f))
      go false false e f = expand_rest-plain c t (ground (arith, e)) f

  -- A text of bytes, written in PS1 with any of its bytes in octal, each dollar in octal, and each
  -- backslash in octal or twice, is expanded to itself, whatever the session.
  pub expand_prompt-quote :
      (wanted : ℕ → Bool) (p : Bytes) → AreBytes p → expand_prompt s (quote wanted p) ≡ p
  unfolding expand_rest expand_prompt quote
  expand_prompt-quote wanted [] h = refl
  expand_prompt-quote wanted (c ∷ p) (one_byte h k) =
      expand_rest-quote_byte wanted c (quote wanted p) h
      ∙ ap (◌∷◌ c) (expand_prompt-quote wanted p k)
