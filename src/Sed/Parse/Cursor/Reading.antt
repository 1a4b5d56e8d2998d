-- ===== src/Sed/Parse/Cursor/Reading.antt =====
-- `delimited` reads what is delimited, and nothing else.
use websh.Base.{
  ℕ, ◌≡◌, ◌≢◌, ◌↔◌, refl, sym, ap, ap₂, ◌∙◌, true, false, not, ◌&&◌, [], ◌∷◌, ◌++◌, append-nil,
  append_assoc, arith, ◌==◌, if◌then◌else◌, Bytes, Bool-cases, inl, inr, ==→eq,
}
use websh.Base.Result.{ok}
use websh.Sed.Parse.Cursor.{Parser, delimited_loop, delimited}

-- `Delimited delim raw text`: up to an unescaped delimiter the script has the bytes `raw`, which
-- stand for `text`. A newline has to be escaped, unless it is the delimiter.
pub data Delimited (delim : ℕ) : Bytes → Bytes → Type 0 where
  end : Delimited delim [] []
  plain :
      (c : ℕ) {raw text : Bytes}
      → (c == b'\\') ≡ false
      → (c == delim) ≡ false
      → (c == b'\n' && not (delim == b'\n')) ≡ false
      → Delimited delim raw text
      → Delimited delim (c ∷ raw) (c ∷ text)
  newline :
      {raw text : Bytes}
      → Delimited delim raw text
      → Delimited delim (b'\\' ∷ b'\n' ∷ raw) (b'\n' ∷ text)
  escaped :
      (c : ℕ) {raw text : Bytes}
      → (c == b'\n') ≡ false
      → Delimited delim raw text
      → Delimited delim (b'\\' ∷ c ∷ raw) (b'\\' ∷ c ∷ text)

module _ (p : Parser) (delim : ℕ) where
  step-plain :
      (c : ℕ) (out rest : Bytes)
      → (c == b'\\') ≡ false
      → (c == delim) ≡ false
      → (c == b'\n' && not (delim == b'\n')) ≡ false
      → rest ≢ []
      → delimited_loop p delim out (c ∷ rest) ≡ delimited_loop p delim (out ++ c ∷ []) rest
  unfolding delimited_loop
  step-plain c out [] h k n ne = absurd (ne refl)
  step-plain c out (d ∷ rest) h k n ne = ground arith

  step-end :
      (out rest : Bytes)
      → (delim == b'\\') ≡ false
      → delimited_loop p delim out (delim ∷ rest) ≡ ok (out, rest)
  unfolding delimited_loop
  step-end out [] h = ground arith
  step-end out (d ∷ rest) h = ground arith

  step-newline :
      (out rest : Bytes)
      → delimited_loop p delim out (b'\\' ∷ b'\n' ∷ rest)
        ≡ delimited_loop p delim (out ++ b'\n' ∷ []) rest
  unfolding delimited_loop
  step-newline out rest = refl

  step-escaped :
      (c : ℕ) (out rest : Bytes)
      → (c == b'\n') ≡ false
      → delimited_loop p delim out (b'\\' ∷ c ∷ rest)
        ≡ delimited_loop p delim (out ++ b'\\' ∷ c ∷ []) rest
  unfolding delimited_loop
  step-escaped c out rest n = rw n

  ne-of_end : (raw rest : Bytes) → raw ++ (delim ∷ rest) ≢ []
  ne-of_end [] rest h = cc
  ne-of_end (c ∷ raw) rest h = cc

  delimited_loop-Delimited :
      {raw text : Bytes} (out rest : Bytes)
      → (delim == b'\\') ≡ false
      → Delimited delim raw text
      → delimited_loop p delim out (raw ++ (delim ∷ rest)) ≡ ok (out ++ text, rest)
  delimited_loop-Delimited out rest h end = step-end out rest h ∙ rw append-nil
  delimited_loop-Delimited out rest h (plain c {raw} {text} a b n d) =
      step-plain c out (raw ++ (delim ∷ rest)) a b n (ne-of_end raw rest)
      ∙ delimited_loop-Delimited (out ++ c ∷ []) rest h d
      ∙ rw append_assoc
  delimited_loop-Delimited out rest h (newline {raw} {text} d) =
      step-newline out (raw ++ (delim ∷ rest))
      ∙ delimited_loop-Delimited (out ++ b'\n' ∷ []) rest h d
      ∙ rw append_assoc
  delimited_loop-Delimited out rest h (escaped c {raw} {text} n d) =
      step-escaped c out (raw ++ (delim ∷ rest)) n
      ∙ delimited_loop-Delimited (out ++ b'\\' ∷ c ∷ []) rest h d
      ∙ rw append_assoc

  -- A text in front of a delimiter that is not the backslash is read up to the delimiter, whatever
  -- follows: an escaped newline as a newline, any other escape as it stands.
  pub delimited-Delimited :
      {raw text : Bytes} (rest : Bytes)
      → (delim == b'\\') ≡ false
      → Delimited delim raw text
      → delimited p delim (raw ++ (delim ∷ rest)) ≡ ok (text, rest)
  unfolding delimited
  delimited-Delimited rest h d = delimited_loop-Delimited [] rest h d

  -- What a successful call has read.
  pub record WasDelimited (src text rest : Bytes) : Type 0 where
    pub raw : Bytes
    pub splits : src ≡ raw ++ (delim ∷ rest)
    pub reads : Delimited delim raw text

  WasDelimited-plain :
      {src text rest : Bytes} (c : ℕ)
      → (c == b'\\') ≡ false
      → (c == delim) ≡ false
      → (c == b'\n' && not (delim == b'\n')) ≡ false
      → WasDelimited src text rest
      → WasDelimited (c ∷ src) (c ∷ text) rest
  WasDelimited-plain c a b n w = record {
    raw = c ∷ w.raw;
    splits = ap (◌∷◌ c) w.splits;
    reads = plain c a b n w.reads;
  }

  WasDelimited-escape :
      {src text rest : Bytes} (c d : ℕ)
      → (c == b'\\') ≡ true
      → WasDelimited src text rest
      → WasDelimited
          (c ∷ d ∷ src)
          ((if d == b'\n' then b'\n' ∷ [] else b'\\' ∷ d ∷ []) ++ text)
          rest
  WasDelimited-escape c d k w = elim (Bool-cases (d == b'\n')) [
    | inl e ↦ rw e (record {
      raw = b'\\' ∷ b'\n' ∷ w.raw;
      splits =
          ap₂ (λ (x : ℕ × ℕ) s. x.0 ∷ x.1 ∷ s) (λ i. (==→eq c b'\\' k i, ==→eq d b'\n' e i))
            w.splits;
      reads = newline w.reads;
    })
    | inr e ↦ rw e (record {
      raw = b'\\' ∷ d ∷ w.raw;
      splits = ap₂ (λ (x : ℕ) s. x ∷ d ∷ s) (==→eq c b'\\' k) w.splits;
      reads = escaped d e w.reads;
    })
  ]

  -- The text read is behind what was read before.
  abbrev Reads : Bytes → Bytes → Bytes → Bytes → Type 0
  Reads out src t rest = (text : Bytes) × (t ≡ out ++ text) × WasDelimited src text rest

  Reads-end :
      (c : ℕ) (out r : Bytes) {t rest : Bytes}
      → (c == delim) ≡ true
      → t ≡ out
      → rest ≡ r
      → Reads out (c ∷ r) t rest
  Reads-end c out r k e f = (
    [],
    e ∙ sym (append-nil out),
    record { raw = []; splits = ap₂ ◌∷◌ (==→eq c delim k) (sym f); reads = end },
  )

  delimited_loop-Reads :
      (src out : Bytes) {t rest : Bytes}
      → (delim == b'\\') ≡ false
      → delimited_loop p delim out src ≡ ok (t, rest)
      → Reads out src t rest
  unfolding delimited_loop
  delimited_loop-Reads [] out h e = absurd (ground arith)
  delimited_loop-Reads (c ∷ []) out h e = elim (Bool-cases (c == delim)) [
    | inl k ↦ Reads-end c out [] k (ground arith) (ground arith)
    | inr k ↦ absurd (ground arith)
  ]
  delimited_loop-Reads (c ∷ d ∷ src) out h e = elim (Bool-cases (c == b'\\')) [
    | inl k ↦
        let esc : Bytes = if d == b'\n' then b'\n' ∷ [] else b'\\' ∷ d ∷ [] in
        let (text, s, w) = delimited_loop-Reads src (out ++ esc) h (rw k at e) in
        (esc ++ text, s ∙ append_assoc out esc text, WasDelimited-escape c d k w)
    | inr k ↦ elim (Bool-cases (c == delim)) [
      | inl m ↦ Reads-end c out (d ∷ src) m (ground arith) (ground arith)
      | inr m ↦ elim (Bool-cases (c == b'\n' && not (delim == b'\n'))) [
        | inl n ↦ absurd (ground arith)
        | inr n ↦
            let (text, s, w) =
              delimited_loop-Reads (d ∷ src) (out ++ c ∷ []) h (rw (k, m, n) at e) in
            (c ∷ text, s ∙ append_assoc out (c ∷ []) text, WasDelimited-plain c k m n w)
      ]
    ]
  ]

  -- A call that succeeds, with a delimiter that is not the backslash, has read such a text: what
  -- was left splits into its bytes, the delimiter, and what is left then.
  pub delimited-WasDelimited :
      (src : Bytes) {t rest : Bytes}
      → (delim == b'\\') ≡ false
      → delimited p delim src ≡ ok (t, rest)
      → WasDelimited src t rest
  unfolding delimited
  delimited-WasDelimited src h e = let (text, s, w) = delimited_loop-Reads src [] h e in rw s w

  -- With a delimiter that is not the backslash, a call succeeds with a text and what is left
  -- exactly when the script splits into the bytes of such a text, the delimiter, and what is left:
  -- the delimiter is the first one that is not escaped, no unescaped newline stands in front of
  -- it, an escaped newline has become a newline, and any other escape is as it was.
  pub delimited_iff :
      (src t rest : Bytes)
      → (delim == b'\\') ≡ false
      → (delimited p delim src ≡ ok (t, rest)) ↔ WasDelimited src t rest
  delimited_iff src t rest h = (
    delimited-WasDelimited src h,
    λ w. ap (delimited p delim) w.splits ∙ delimited-Delimited rest h w.reads,
  )
