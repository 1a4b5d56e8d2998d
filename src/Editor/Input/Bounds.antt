-- ===== src/Editor/Input/Bounds.antt =====
-- What the terminal sends leaves the editor valid.
use websh.Base.{
  ℕ, ◌≤◌, ◌≡◌, refl, Bool, true, false, Option, none, some, List, [], ◌∷◌, ◌++◌, ◌==◌, arith, ◌||◌,
  within, if◌then◌else◌, ltb, length, take, drop, Bytes,
}
use websh.Base.Utf8.{encode}
use websh.Editor.State.{
  end_of_input, clear_screen, Terminal, Esc, outside, behind_esc, inside, Editor, emit, reset,
  change, move_to, settle,
}
use websh.Editor.Keys.{kill_start, kill_end, delete_word, back_word, handle_csi}
use websh.Editor.Keys.Bounds.{
  IsValid, IsValid-if, IsValid-core, kill_start-IsValid, kill_end-IsValid, delete_word-IsValid,
  change-IsValid, move_to-IsValid, settle-IsValid, insert-IsValid, backspace-IsValid,
  handle_csi-IsValid, end-IsValid,
}
use websh.Editor.Keys.Drawn.{core}
use websh.Editor.Input.{
  list_candidates, complete_one, complete_common, common_prefix, choose, complete_word, all_space,
  leave_line, enter, cancel, press, press_inside, input_at, input_rune, input,
}

-- The candidates of the terminal: one that stands alone is not shorter than the word.
unfoldable pub Extends : Terminal → Type 0
Extends t =
    (complete : Bytes → Bool → List Bytes)
    → t.complete ≡ some complete
    → (word : Bytes) (first : Bool) (c : Bytes) → complete word first ≡ c ∷ []
    → length word ≤ length c

-- A run in which no slice was out of range, and which has left a valid editor.
unfoldable pub Runs : Option Editor → Type 0
Runs o = (e : Editor) × (o ≡ some e) × IsValid e

Runs-some : (e : Editor) → IsValid e → Runs (some e)
unfolding Runs
Runs-some e v = (e, refl, v)

Runs-if :
    (b : Bool) (x y : Option Editor)
    → (b ≡ true → Runs x)
    → (b ≡ false → Runs y)
    → Runs (if b then x else y)
Runs-if true x y v w = v refl
Runs-if false x y v w = w refl

escaping-IsValid : (e : Editor) (s : Esc) → IsValid e → IsValid (record e { esc = s })
unfolding IsValid
escaping-IsValid e s v = v

opening-IsValid : (e : Editor) → IsValid e → IsValid (record e { esc = inside; csi = [] })
unfolding IsValid
opening-IsValid e v = v

module _ (t : Terminal) (e : Editor) (v : IsValid e) where
  list_candidates-core : (cs : List Bytes) → core (list_candidates t cs e) ≡ core e
  unfolding list_candidates move_to core
  list_candidates-core cs = ground arith

  list_candidates-IsValid : (cs : List Bytes) → IsValid (list_candidates t cs e)
  list_candidates-IsValid cs = IsValid-core (list_candidates t cs e) e (list_candidates-core cs) v

  complete_common-IsValid :
      (word common : Bytes) (cs : List Bytes) → IsValid (complete_common t word common cs e)
  unfolding complete_common
  complete_common-IsValid word common cs =
      IsValid-if (ltb (length word) (length common)) _ _ (λ _. insert-IsValid t e v _)
        (λ _. list_candidates-IsValid cs)

  complete_one-Runs : (word c : Bytes) → length word ≤ length c → Runs (complete_one t word c e)
  unfolding complete_one
  complete_one-Runs word c h =
      Runs-if (ltb (length c) (length word)) _ _ (λ k. absurd (ground (arith, k, h)))
        (λ _. Runs-some _ (insert-IsValid t e v _))

  choose-Runs :
      (word : Bytes) (cs : List Bytes)
      → ((c : Bytes) → cs ≡ c ∷ [] → length word ≤ length c)
      → Runs (choose t word cs e)
  unfolding choose
  choose-Runs word [] h = Runs-some e v
  choose-Runs word (c ∷ []) h = complete_one-Runs word c (h c refl)
  choose-Runs word (c ∷ d ∷ cs) h =
      Runs-some _ (complete_common-IsValid word (common_prefix c (d ∷ cs)) (c ∷ d ∷ cs))

  complete_word-Runs : Extends t → Runs (complete_word t e)
  unfolding Extends complete_word
  complete_word-Runs x = go t.complete refl
    where
      go : (o : Option (Bytes → Bool → List Bytes)) → t.complete ≡ o → Runs (complete_word t e)
      go none k = rw (complete_word, k) (Runs-some e v)
      go (some complete) k =
          (let start = back_word e.buf e.cursor in
            let word = encode (drop start (take e.cursor e.buf)) in
            let first = all_space (take start e.buf) in
            rw (complete_word, k)
              (choose-Runs word (complete word first) (x complete k word first)))

  leave_line-IsValid : IsValid (leave_line t e)
  unfolding leave_line
  leave_line-IsValid =
      elim t.prompt as (λ o. IsValid (elim o [ none ↦ e | some _ ↦ move_to t (length e.buf) e ])) [
        | none ↦ v
        | some _ ↦ end-IsValid t e v
      ]

  enter-IsValid : IsValid (enter t e)
  unfolding enter reset IsValid
  enter-IsValid = (omega arith, omega arith)

  cancel-IsValid : IsValid (cancel t e)
  unfolding cancel reset IsValid
  cancel-IsValid = (omega arith, omega arith)

  ended-IsValid : IsValid (elim e.buf [ [] ↦ emit end_of_input e | _ ∷ _ ↦ e ])
  ended-IsValid = elim e.buf as (λ b. IsValid (elim b [ [] ↦ emit end_of_input e | _ ∷ _ ↦ e ])) [
    | [] ↦ unfold IsValid in v
    | _ ∷ _ ↦ v
  ]

  home-IsValid : IsValid (move_to t 0 e)
  home-IsValid = move_to-IsValid t e v 0 (omega arith)

  killed_start : IsValid (change t kill_start e)
  killed_start = change-IsValid t e v kill_start (kill_start-IsValid e v)

  killed_end : IsValid (change t kill_end e)
  killed_end = change-IsValid t e v kill_end (kill_end-IsValid e v)

  word_deleted : IsValid (change t delete_word e)
  word_deleted = change-IsValid t e v delete_word (delete_word-IsValid e v)

  escaping : (s : Esc) → IsValid (record e { esc = s })
  escaping s = escaping-IsValid e s v

  cleared : IsValid (emit clear_screen e)
  cleared = unfold IsValid in v

  pub press-Runs : Extends t → (r : ℕ) → Runs (press t r e)
  unfolding press
  press-Runs x r =
      let completed = complete_word-Runs x in
      let inserted = insert-IsValid t e v (r ∷ []) in
      let erased = backspace-IsValid t e v in
      let ended = end-IsValid t e v in
      search
        (
          Runs-if, Runs-some, escaping, enter-IsValid, erased, cancel-IsValid, ended-IsValid,
          cleared, home-IsValid, ended, killed_start, killed_end, word_deleted, completed, inserted,
          v,
        )
        depth 60

  press_inside-IsValid : (r : ℕ) → IsValid (press_inside t r e)
  unfolding press_inside
  press_inside-IsValid r =
      let e' = handle_csi t (e.csi ++ r ∷ []) e in
      let sent : IsValid (record e' { esc = outside }) =
        escaping-IsValid e' outside (handle_csi-IsValid t e v (e.csi ++ r ∷ [])) in
      let kept : IsValid (record e { csi = e.csi ++ r ∷ [] }) = unfold IsValid in v in
      IsValid-if (within b'A' b'Z' r || r == b'~') _ _ (λ _. sent) (λ _. kept)

module _ (t : Terminal) (x : Extends t) where
  input_at-Runs : (r : ℕ) (e : Editor) (s : Esc) → IsValid e → Runs (input_at t r e s)
  unfolding input_at
  input_at-Runs r e outside v = press-Runs t e v x r
  input_at-Runs r e behind_esc v =
      Runs-if (r == b'[' || r == b'O') _ _ (λ _. Runs-some _ (opening-IsValid e v))
        (λ _. press-Runs t (record e { esc = outside }) (escaping-IsValid e outside v) x r)
  input_at-Runs r e inside v = Runs-some _ (press_inside-IsValid t e v r)

  pub input_rune-Runs : (r : ℕ) (e : Editor) → IsValid e → Runs (input_rune t r e)
  unfolding input_rune
  input_rune-Runs r e v = input_at-Runs r (settle t e) e.esc (settle-IsValid t e v)

  input-cons :
      (r : ℕ) (rs : List ℕ) (e e' : Editor)
      → input_rune t r e ≡ some e'
      → Runs (input t rs e')
      → Runs (input t (r ∷ rs) e)
  unfolding input
  input-cons r rs e e' h w = rw (input, h) w

  -- Whatever runes the terminal sends to a valid editor, completion slices no candidate out of
  -- range, and the editor that results is valid: its cursor is at a place of the line, and its
  -- index at a line of the history or behind the last. A candidate that stands alone must not be
  -- shorter than its word.
  pub input-Runs : (rs : List ℕ) (e : Editor) → IsValid e → Runs (input t rs e)
  unfolding Runs
  input-Runs [] e v = (e, unfold input in refl, v)
  input-Runs (r ∷ rs) e v =
      let (e', h, w) = input_rune-Runs r e v in input-cons r rs e e' h (input-Runs rs e' w)
