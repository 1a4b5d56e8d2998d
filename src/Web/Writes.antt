-- ===== src/Web/Writes.antt =====
-- The writer of a session gives the terminal whole characters.
use websh.Base.{
  ℕ, ◌-◌, ◌≡◌, refl, sym, ap, ap₂, ◌∙◌, Bool, List, [], ◌∷◌, ◌++◌, subst, equal, append_assoc,
  append-nil, if◌then◌else◌, Bytes, length, take, drop,
}
use websh.Base.Utf8.{encode}
use websh.Web.{TermWriter, new_lines, partial_rune, term_write, term_writes}
use websh.Web.Parted.{text-Parted, Parted-take, Parted-drop}
use websh.Web.Lines.{
  shown_as, encode-append, shown_as-append, shown_as-nil, new_lines-shown_as, encode-nil,
}

-- the texts one behind the other
unfoldable pub concatenated : List Bytes → Bytes
concatenated [] = []
concatenated (p ∷ ps) = p ++ concatenated ps

concatenated-append :
    (ss : List Bytes) (s : Bytes) → concatenated (ss ++ s ∷ []) ≡ concatenated ss ++ s
unfolding concatenated
concatenated-append [] s = append-nil s
concatenated-append (t ∷ ss) s =
    ap (λ x. t ++ x) (concatenated-append ss s) ∙ sym (append_assoc t (concatenated ss) s)

-- Each of the texts is the UTF-8 of some runes.
pub data AreTexts : List Bytes → Type 0 where
  no_texts : AreTexts []
  text : (rs : List ℕ) (ss : List Bytes) → AreTexts ss → AreTexts (encode rs ∷ ss)

AreTexts-append : (ss : List Bytes) (rs : List ℕ) → AreTexts ss → AreTexts (ss ++ encode rs ∷ [])
AreTexts-append ss rs no_texts = text rs [] no_texts
AreTexts-append ss rs (text qs ts h) = text qs (ts ++ encode rs ∷ []) (AreTexts-append ts rs h)

-- The terminal was given `given` of the runes, and what is kept and comes later is the others.
record Flows (pty : Bool) (rs : List ℕ) (w : TermWriter) (later : Bytes) : Type 0 where
  given : List ℕ
  left : List ℕ
  runes : given ++ left ≡ rs
  shown : concatenated w.term ≡ encode (shown_as pty given)
  texts : AreTexts w.term
  goes_on : w.tail ++ later ≡ encode left
  ends : later ≡ [] → w.tail ≡ []

-- a text given to the terminal, unless it is empty
abbrev given_to : List Bytes → Bytes → List Bytes
given_to ss s = if equal s [] then ss else ss ++ s ∷ []

given_to-concatenated :
    (ss : List Bytes) (s : Bytes) → concatenated (given_to ss s) ≡ concatenated ss ++ s
unfolding equal
given_to-concatenated ss [] = sym (append-nil (concatenated ss))
given_to-concatenated ss (c ∷ s) = concatenated-append ss (c ∷ s)

given_to-AreTexts :
    (ss : List Bytes) (s : Bytes) (rs : List ℕ)
    → s ≡ encode rs
    → AreTexts ss
    → AreTexts (given_to ss s)
unfolding equal
given_to-AreTexts ss [] rs e h = h
given_to-AreTexts ss (c ∷ s) rs e h =
    subst (λ x. AreTexts (ss ++ x ∷ [])) (sym e) (AreTexts-append ss rs h)

term_write-Flows :
    (pty : Bool) (rs : List ℕ) (w : TermWriter) (p later : Bytes)
    → Flows pty rs w (p ++ later)
    → Flows pty rs (term_write pty w p) later
unfolding term_write
term_write-Flows pty rs w p later h =
    let b = w.tail ++ p in
    let part = text-Parted h.left b later (append_assoc w.tail p later ∙ h.goes_on) in
    let n = length b - partial_rune b in
    let kept : drop n b ≡ part.start = Parted-drop h.left b later part in
    let s = if pty then take n b else new_lines (take n b) in
    let wrote : s ≡ encode (shown_as pty part.whole) =
      ap (λ x. if pty then x else new_lines x) (Parted-take h.left b later part)
      ∙ new_lines-shown_as pty part.whole in
    record {
      given = h.given ++ part.whole;
      left = part.left;
      runes =
          append_assoc h.given part.whole part.left ∙ (ap (λ x. h.given ++ x) part.runes ∙ h.runes);
      shown =
          given_to-concatenated w.term s
          ∙ (ap₂ ◌++◌ h.shown wrote
              ∙ (sym (encode-append (shown_as pty h.given) (shown_as pty part.whole))
                  ∙ ap encode (sym (shown_as-append pty h.given part.whole))));
      texts = given_to-AreTexts w.term s (shown_as pty part.whole) wrote h.texts;
      goes_on = ap (λ x. x ++ later) kept ∙ part.goes_on;
      ends = λ e. kept ∙ part.ends e;
    }

term_writes-Flows :
    (pty : Bool) (rs : List ℕ) (w : TermWriter) (ps : List Bytes)
    → Flows pty rs w (concatenated ps)
    → Flows pty rs (term_writes pty w ps) []
unfolding concatenated term_writes
term_writes-Flows pty rs w [] h = h
term_writes-Flows pty rs w (p ∷ ps) h =
    term_writes-Flows pty rs (term_write pty w p) ps
      (term_write-Flows pty rs w p (concatenated ps) h)

abbrev pub new_writer : TermWriter
new_writer = record { tail = []; term = [] }

-- However the UTF-8 of a command's output is cut into writes, within characters too: each text that
-- the terminal is given is the UTF-8 of whole characters, the texts are together all of the output,
-- with a carriage return in front of each line feed unless it is a pty's, and nothing is kept.
pub term_writes-shown :
    (pty : Bool) (rs : List ℕ) (ps : List Bytes)
    → concatenated ps ≡ encode rs
    → let v = term_writes pty new_writer ps in
      AreTexts v.term × (concatenated v.term ≡ encode (shown_as pty rs)) × (v.tail ≡ [])
unfolding concatenated encode shown_as
term_writes-shown pty rs ps h =
    let start : Flows pty rs new_writer (concatenated ps) = record {
      given = [];
      left = rs;
      runes = refl;
      shown = ap encode (sym (shown_as-nil pty));
      texts = no_texts;
      goes_on = h;
      ends = λ e. refl;
    } in
    let end = term_writes-Flows pty rs new_writer ps start in
    let kept = end.ends refl in
    let all : end.given ≡ rs =
      sym (append-nil end.given)
      ∙ (ap (λ x. end.given ++ x)
            (sym (encode-nil end.left (sym end.goes_on ∙ (append-nil _ ∙ kept))))
          ∙ end.runes) in
    (end.texts, end.shown ∙ ap (λ x. encode (shown_as pty x)) all, kept)
