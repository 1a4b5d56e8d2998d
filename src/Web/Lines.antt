-- ===== src/Web/Lines.antt =====
-- The line feeds of a text on its way to the terminal, as characters.
use websh.Base.{
  ℕ, ◌≡◌, ◌≢◌, refl, sym, ap, ap₂, ◌∙◌, Bool, true, false, List, [], ◌∷◌, ◌++◌, subst, ◌==◌,
  Bool-cases, inl, inr, ltb, ==→eq, append_assoc, if◌then◌else◌, arith, Bytes,
}
use websh.Base.Utf8.{encode, encode_rune}
use websh.Web.{new_lines}
use websh.Web.Characters.{Character, one, two, three, four, encode_rune-Character}

-- a text with a carriage return in front of each line feed, unless it is a pty's
unfoldable pub shown_as : Bool → List ℕ → List ℕ
shown_as true rs = rs
shown_as false [] = []
shown_as false (r ∷ rs) =
    if r == b'\n' then b'\r' ∷ b'\n' ∷ shown_as false rs else r ∷ shown_as false rs

pub encode-append : (rs qs : List ℕ) → encode (rs ++ qs) ≡ encode rs ++ encode qs
unfolding encode
encode-append [] qs = refl
encode-append (r ∷ rs) qs =
    ap (λ x. encode_rune r ++ x) (encode-append rs qs)
    ∙ sym (append_assoc (encode_rune r) (encode rs) (encode qs))

pub shown_as-append :
    (pty : Bool) (rs qs : List ℕ) → shown_as pty (rs ++ qs) ≡ shown_as pty rs ++ shown_as pty qs
unfolding shown_as
shown_as-append true rs qs = refl
shown_as-append false [] qs = refl
shown_as-append false (r ∷ rs) qs = ground (arith, shown_as-append false rs qs)

pub shown_as-nil : (pty : Bool) → shown_as pty [] ≡ []
unfolding shown_as
shown_as-nil true = refl
shown_as-nil false = refl

new_lines-append : (s t : Bytes) → new_lines (s ++ t) ≡ new_lines s ++ new_lines t
unfolding new_lines
new_lines-append [] t = refl
new_lines-append (c ∷ s) t = ground (arith, new_lines-append s t)

-- a character that is no line feed has none in it
new_lines-encode_rune : (r : ℕ) → (r == b'\n') ≡ false → new_lines (encode_rune r) ≡ encode_rune r
unfolding encode_rune new_lines
new_lines-encode_rune r h = elim (Bool-cases (ltb r 0x80)) [
  | inl e ↦ ground (arith, h, e)
  | inr e ↦ ground (arith, h, e)
]

new_lines-encode : (rs : List ℕ) → new_lines (encode rs) ≡ encode (shown_as false rs)
unfolding encode encode_rune new_lines shown_as
new_lines-encode [] = refl
new_lines-encode (r ∷ rs) = go (r == b'\n') refl (new_lines-encode rs)
  where
    go :
        (b : Bool)
        → (r == b'\n') ≡ b
        → new_lines (encode rs) ≡ encode (shown_as false rs)
        → new_lines (encode (r ∷ rs)) ≡ encode (shown_as false (r ∷ rs))
    go true e ih =
        subst (λ x. new_lines (encode (x ∷ rs)) ≡ encode (shown_as false (x ∷ rs)))
          (sym (==→eq r b'\n' e)) (ap (λ x. b'\r' ∷ b'\n' ∷ x) ih)
    go false e ih =
        let same : encode (shown_as false (r ∷ rs)) ≡ encode_rune r ++ encode (shown_as false rs) =
          rw (shown_as, e) refl in
        new_lines-append (encode_rune r) (encode rs)
        ∙ (ap₂ ◌++◌ (new_lines-encode_rune r e) ih ∙ sym same)

-- what is done to a text on its way to the terminal
pub new_lines-shown_as :
    (pty : Bool) (rs : List ℕ)
    → (if pty then encode rs else new_lines (encode rs)) ≡ encode (shown_as pty rs)
unfolding shown_as
new_lines-shown_as true rs = refl
new_lines-shown_as false rs = new_lines-encode rs

pub encode-nil : (rs : List ℕ) → encode rs ≡ [] → rs ≡ []
unfolding encode
encode-nil [] h = refl
encode-nil (r ∷ rs) h = absurd (go (encode_rune r) (encode_rune-Character r) h)
  where
    go : (ch : Bytes) → Character ch → ch ++ encode rs ≢ []
    go ch (one a k) e = cc
    go ch (two a b k m f) e = cc
    go ch (three a b c k m f g) e = cc
    go ch (four a b c d k f g i) e = cc
