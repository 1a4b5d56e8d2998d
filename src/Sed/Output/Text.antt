-- ===== src/Sed/Output/Text.antt =====
-- What `output` has written, where every write succeeds.
use websh.Base.{
  ◌≡◌, Bool, true, false, not, List, [], ◌∷◌, ◌++◌, append-nil, append_assoc, arith, if◌then◌else◌,
  Bool-cases, inl, inr, Bytes,
}
use websh.Sed.Host.{Host}
use websh.Sed.Input.Lines.{Line}
use websh.Sed.Output.{Output, put, write, line}

-- The writer takes all that it is given.
abbrev pub Accepts : Host → Type 0
Accepts h = (w s : Bytes) → h.put w s ≡ (w ++ s, true)

-- The text in front of anything that follows.
abbrev pub shown : Output → Bytes
shown o = o.w ++ (if o.missing_nl then b'\n' ∷ [] else [])

module _ (h : Host) (accepts : Accepts h) where
  pub write-Accepts :
      (o : Output) (s : Bytes)
      → o.failed ≡ false
      → write h o s ≡ record { w = shown o ++ s; missing_nl = false; failed = false }
  unfolding write put
  write-Accepts o s ok' = elim (Bool-cases o.missing_nl) [
    | inl e ↦ ground (arith, accepts o.w (b'\n' ∷ []), accepts (o.w ++ b'\n' ∷ []) s)
    | inr e ↦ ground (arith, accepts o.w s, append-nil o.w)
  ]

  -- `line` leaves the text of the line behind what was there, and a missing newline pending.
  pub line-Accepts :
      (o : Output) (s : Bytes) (nl : Bool)
      → o.failed ≡ false
      → line h o s nl ≡ record {
        w = (shown o ++ s) ++ (if nl then b'\n' ∷ [] else []);
        missing_nl = not nl;
        failed = false;
      }
  unfolding line
  line-Accepts o s true ok' = rw (write-Accepts o s ok') (
      ground (
        arith,
        write-Accepts (record { w = shown o ++ s; missing_nl = false; failed = false })
            (b'\n' ∷ []),
        append-nil (shown o ++ s),
      ))
  line-Accepts o s false ok' =
      rw (write-Accepts o s ok') (ground (arith, append-nil (shown o ++ s)))

-- The text of lines written one after the other: all but the last end in a newline.
abbrev pub render : List Line → Bytes
render [] = []
render ((l, nl) ∷ []) = l ++ (if nl then b'\n' ∷ [] else [])
render ((l, nl) ∷ x ∷ ls) = l ++ (b'\n' ∷ render (x ∷ ls))

-- What the writer holds once lines are written behind `o`.
abbrev pub text_after : Output → List Line → Bytes
text_after o [] = o.w
text_after o (x ∷ ls) = shown o ++ render (x ∷ ls)

pub text_after-line :
    (o : Output) (l : Bytes) (nl : Bool) (ls : List Line)
    → text_after
        (record {
          w = (shown o ++ l) ++ (if nl then b'\n' ∷ [] else []);
          missing_nl = not nl;
          failed = false;
        })
        ls
      ≡ text_after o ((l, nl) ∷ ls)
text_after-line o l true [] = append_assoc (shown o) l (b'\n' ∷ [])
text_after-line o l false [] = append_assoc (shown o) l []
text_after-line o l true (x ∷ ls) = simp (append_assoc, append-nil)
text_after-line o l false (x ∷ ls) = simp (append_assoc, append-nil)
