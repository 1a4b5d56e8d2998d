-- ===== src/Editor/Input/Typing.antt =====
-- Lines that are typed, and what Enter submits.
use websh.Base.{
  ℕ, ◌+◌, ◌≡◌, refl, sym, ap, subst, ◌∙◌, true, false, Option, some, List, [], ◌∷◌, ◌++◌, ◌==◌,
  arith, ltb, leb, length, length-append, append_assoc, append-nil,
}
use websh.Editor.State.{Event, submit, Terminal, outside, Editor, reset, move_to, settle}
use websh.Editor.Keys.{insert, insert_end}
use websh.Editor.Keys.Drawn.{core, settle-core, insert_end-core}
use websh.Editor.Input.{press, input_at, input_rune, input, enter, leave_line}

-- A rune that is text.
abbrev pub IsText : ℕ → Type 0
IsText r = (leb 32 r ≡ true) × ((r == 0x7f) ≡ false)

abbrev pub AreText : List ℕ → Type 0
AreText [] = Unit
AreText (r ∷ rs) = IsText r × AreText rs

-- The line is `b`, the cursor is behind it, and no escape sequence is open.
abbrev pub IsAtEnd : Editor → List ℕ → Type 0
IsAtEnd e b = (e.buf ≡ b) × (e.cursor ≡ length b) × (e.esc ≡ outside)

IsAtEnd-core : (a b : Editor) (l : List ℕ) → core a ≡ core b → IsAtEnd b l → IsAtEnd a l
unfolding core
IsAtEnd-core a b l p s = subst (λ e. IsAtEnd e l) (sym p) s

module _ (t : Terminal) where
  press-text : (r : ℕ) (e : Editor) → IsText r → press t r e ≡ some (insert t (r ∷ []) e)
  unfolding press
  press-text r e h = ground (arith, h)

  insert-insert_end :
      (rs : List ℕ) (e : Editor)
      → ltb e.cursor (length e.buf) ≡ false
      → insert t rs e ≡ insert_end t rs e
  unfolding insert
  insert-insert_end rs e h = rw h refl

  insert-IsAtEnd :
      (r : ℕ) (e : Editor) (b : List ℕ) → IsAtEnd e b → IsAtEnd (insert t (r ∷ []) e) (b ++ r ∷ [])
  insert-IsAtEnd r e b s =
      let behind : ltb e.cursor (length e.buf) ≡ false = ground (arith, s.1, ap length s.0) in
      IsAtEnd-core (insert t (r ∷ []) e) (record e { buf = e.buf ++ r ∷ []; cursor = e.cursor + 1 })
        (b ++ r ∷ []) (ap core (insert-insert_end (r ∷ []) e behind) ∙ insert_end-core t e (r ∷ []))
        (ap (λ l. l ++ r ∷ []) s.0, omega (arith, s.1, length-append b (r ∷ [])), s.2)

  input_rune-IsAtEnd :
      (r : ℕ) (e : Editor) (b : List ℕ)
      → IsText r
      → IsAtEnd e b
      → (input_rune t r e ≡ some (insert t (r ∷ []) (settle t e)))
        × IsAtEnd (insert t (r ∷ []) (settle t e)) (b ++ r ∷ [])
  unfolding input_rune input_at
  input_rune-IsAtEnd r e b h s = (
    subst (λ q. input_at t r (settle t e) q ≡ some (insert t (r ∷ []) (settle t e))) (sym s.2)
        (press-text r (settle t e) h),
    insert-IsAtEnd r (settle t e) b (IsAtEnd-core (settle t e) e b (settle-core t e) s),
  )

  leave_line-buf : (e : Editor) → (leave_line t e).buf ≡ e.buf
  unfolding leave_line move_to
  leave_line-buf e = ground arith

  settle-buf : (e : Editor) → (settle t e).buf ≡ e.buf
  unfolding settle
  settle-buf e = ground arith

  -- what Enter leaves
  abbrev pub Submitted : Option Editor → List ℕ → Type 0
  Submitted o l =
      (e : Editor) × (o ≡ some e)
      × (e.buf ≡ [])
      × (e.cursor ≡ 0)
      × (before : List Event) × (e.events ≡ before ++ submit l ∷ [])

  enter-Submitted : (e : Editor) → Submitted (some (enter t e)) e.buf
  unfolding enter reset
  enter-Submitted e = (enter t e, refl, refl, refl, _, refl)

  input-cons-some :
      (r : ℕ) (rs : List ℕ) (e e' : Editor)
      → input_rune t r e ≡ some e'
      → input t (r ∷ rs) e ≡ input t rs e'
  unfolding input
  input-cons-some r rs e e' h = rw (input, h) refl

  input-Submitted-end :
      (e : Editor) (b : List ℕ) → IsAtEnd e b → Submitted (input t (b'\r' ∷ []) e) b
  unfolding input input_rune input_at press
  input-Submitted-end e b s =
      subst (λ q. Submitted (input t (b'\r' ∷ []) e) q) (settle-buf e ∙ s.0)
        (let k : input_rune t b'\r' e ≡ some (enter t (settle t e)) =
            subst (λ q. input_at t b'\r' (settle t e) q ≡ some (enter t (settle t e))) (sym s.2)
              refl in
          subst (λ o. Submitted o (settle t e).buf)
            (sym (input-cons-some b'\r' [] e (enter t (settle t e)) k))
            (enter-Submitted (settle t e)))

  -- An editor whose cursor is behind its line, outside an escape sequence, is sent text and then
  -- Enter: no slice is out of range, the last callback is `Submit` with the line and the text
  -- behind it, and the line is empty afterwards, with or without a prompt. Text is runes from 32
  -- on other than 127.
  pub input-Submitted :
      (rs : List ℕ) (e : Editor) (b : List ℕ)
      → AreText rs
      → IsAtEnd e b
      → Submitted (input t (rs ++ b'\r' ∷ []) e) (b ++ rs)
  input-Submitted [] e b h s =
      subst (λ l. Submitted (input t (b'\r' ∷ []) e) l) (sym (append-nil b))
        (input-Submitted-end e b s)
  input-Submitted (r ∷ rs) e b h s =
      let (k, at) = input_rune-IsAtEnd r e b h.0 s in
      let e' = insert t (r ∷ []) (settle t e) in
      let later = input-Submitted rs e' (b ++ r ∷ []) h.1 at in
      subst (λ o. Submitted o (b ++ r ∷ rs)) (sym (input-cons-some r (rs ++ b'\r' ∷ []) e e' k))
        (subst (λ l. Submitted (input t (rs ++ b'\r' ∷ []) e') l) (append_assoc b (r ∷ []) rs)
          later)
