-- ===== src/Editor/Input.antt =====
-- shell/editor.go: `completeWord`, and `Input`, which feeds the terminal's runes to the editor.
pub mod Bounds
pub mod Typing
use websh.Base.{
  ℕ, zero, suc, ◌+◌, Bool, true, false, ◌&&◌, ◌||◌, Option, none, some, List, [], ◌∷◌, ◌++◌, ◌==◌,
  if◌then◌else◌, Bytes, ltb, leb, length, take, drop, has_prefix, within, one_of,
}
use websh.Base.Utf8.{runes, encode}
use websh.Editor.Cells.{prompt_text}
use websh.Editor.State.{
  echo, submit, interrupt, end_of_input, clear_screen, Terminal, Esc, outside, behind_esc, inside,
  Editor, emit, reset, tail, redraw, change, move_to, settle,
}
use websh.Editor.Keys.{insert, backspace, kill_start, kill_end, delete_word, back_word, handle_csi}

-- `unicode.IsSpace(r)`
unfoldable pub is_space : ℕ → Bool
is_space r =
    within 9 13 r
    || within 0x2000 0x200a r
    || one_of (0x20 ∷ 0x85 ∷ 0xa0 ∷ 0x1680 ∷ 0x2028 ∷ 0x2029 ∷ 0x202f ∷ 0x205f ∷ 0x3000 ∷ []) r

-- `strings.TrimSpace(s) == ""`
unfoldable pub all_space : List ℕ → Bool
unfolding is_space
all_space [] = true
all_space (r ∷ rs) = let rest = all_space rs in is_space r && rest

-- the loop that shortens `common`, of which `n` bytes are left, until `c` starts with it
unfoldable pub shorten : Bytes → Bytes → ℕ → Bytes
unfolding has_prefix
shorten c common zero = []
shorten c common (suc n) =
    let shorter = shorten c common n in
    if has_prefix c (take (suc n) common) then take (suc n) common else shorter

unfoldable pub common_prefix : Bytes → List Bytes → Bytes
unfolding shorten
common_prefix common [] = common
common_prefix common (c ∷ cs) = common_prefix (shorten c common (length common)) cs

unfoldable pub ends_in_slash : Bytes → Bool
ends_in_slash [] = false
ends_in_slash (c ∷ []) = c == b'/'
ends_in_slash (c ∷ d ∷ s) = ends_in_slash (d ∷ s)

-- `strings.Join(candidates, "  ")`
unfoldable pub join : List Bytes → Bytes
join [] = []
join (c ∷ []) = c
join (c ∷ d ∷ cs) = c ++ (b' ' ∷ b' ' ∷ join (d ∷ cs))

-- the candidates between two line ends; they are text, written by its runes
unfoldable pub listing : List Bytes → List ℕ
unfolding join runes
listing cs = (b'\r' ∷ b'\n' ∷ runes (join cs)) ++ (b'\r' ∷ b'\n' ∷ [])

unfoldable pub list_candidates : Terminal → List Bytes → Editor → Editor
unfolding listing move_to prompt_text tail
list_candidates t cs e = elim t.prompt [
  | none ↦ redraw (emit (echo (listing cs)) e)
  | some prompt ↦
      let e' = record (move_to t (length e.buf) e) { cursor = e.cursor } in
      emit (echo (listing cs ++ (prompt_text prompt ++ tail t prompt e'))) e'
]

-- One candidate: what it has behind the word, and a blank unless it is a directory. A candidate
-- that is shorter than the word is out of range, as `none`.
unfoldable pub complete_one : Terminal → Bytes → Bytes → Editor → Option Editor
unfolding ends_in_slash insert runes
complete_one t word c e =
    if ltb (length c) (length word)
    then none
    else (let completion = drop (length word) c in
        some (insert t (runes (if ends_in_slash c then completion else completion ++ b' ' ∷ [])) e))

-- Several candidates: what they have in common behind the word, or a listing.
unfoldable pub complete_common : Terminal → Bytes → Bytes → List Bytes → Editor → Editor
unfolding insert list_candidates runes
complete_common t word common cs e =
    if ltb (length word) (length common)
    then insert t (runes (drop (length word) common)) e
    else list_candidates t cs e

unfoldable pub choose : Terminal → Bytes → List Bytes → Editor → Option Editor
unfolding common_prefix complete_common complete_one
choose t word [] e = some e
choose t word (c ∷ []) e = complete_one t word c e
choose t word (c ∷ d ∷ cs) e =
    some (complete_common t word (common_prefix c (d ∷ cs)) (c ∷ d ∷ cs) e)

-- `e.completeWord()`
unfoldable pub complete_word : Terminal → Editor → Option Editor
unfolding all_space back_word choose encode
complete_word t e = elim t.complete [
  | none ↦ some e
  | some complete ↦
      let start = back_word e.buf e.cursor in
      let word = encode (drop start (take e.cursor e.buf)) in
      choose t word (complete word (all_space (take start e.buf))) e
]

-- the cursor behind the line, where the editor draws it
unfoldable pub leave_line : Terminal → Editor → Editor
unfolding move_to
leave_line t e = elim t.prompt [ none ↦ e | some _ ↦ move_to t (length e.buf) e ]

-- Enter and Ctrl+C
unfoldable pub enter : Terminal → Editor → Editor
unfolding leave_line reset
enter t e = emit (submit e.buf) (reset (emit (echo (b'\r' ∷ b'\n' ∷ [])) (leave_line t e)))

unfoldable pub cancel : Terminal → Editor → Editor
unfolding leave_line reset
cancel t e =
    emit interrupt (reset (emit (echo (b'^' ∷ b'C' ∷ b'\r' ∷ b'\n' ∷ [])) (leave_line t e)))

-- the `switch r` of `Input`
unfoldable pub press : Terminal → ℕ → Editor → Option Editor
unfolding backspace cancel change complete_word delete_word enter insert kill_end kill_start move_to
press t r e =
    if r == 0x1b
    then some (record e { esc = behind_esc })
    else if r == b'\r' || r == b'\n'
    then some (enter t e)
    else if r == 0x7f || r == 0x08
    then some (backspace t e)
    else if r == 3
    then some (cancel t e)
    else if r == 4
    then some (elim e.buf [ [] ↦ emit end_of_input e | _ ∷ _ ↦ e ])
    else if r == 0xc
    then some (emit clear_screen e)
    else if r == 1
    then some (move_to t 0 e)
    else if r == 5
    then some (move_to t (length e.buf) e)
    else if r == 0x15
    then some (change t kill_start e)
    else if r == 0xb
    then some (change t kill_end e)
    else if r == 0x17
    then some (change t delete_word e)
    else if r == b'\t'
    then complete_word t e
    else if leb 32 r
    then some (insert t (r ∷ []) e)
    else some e

-- inside a control sequence
unfoldable pub press_inside : Terminal → ℕ → Editor → Editor
unfolding handle_csi
press_inside t r e =
    if within b'A' b'Z' r || r == b'~'
    then record (handle_csi t (e.csi ++ r ∷ []) e) { esc = outside }
    else record e { csi = e.csi ++ r ∷ [] }

unfoldable pub input_at : Terminal → ℕ → Editor → Esc → Option Editor
unfolding press press_inside
input_at t r e outside = press t r e
input_at t r e behind_esc =
    if r == b'[' || r == b'O'
    then some (record e { esc = inside; csi = [] })
    else press t r (record e { esc = outside })
input_at t r e inside = some (press_inside t r e)

-- one round of the loop of `Input`
unfoldable pub input_rune : Terminal → ℕ → Editor → Option Editor
unfolding input_at settle
input_rune t r e = input_at t r (settle t e) e.esc

-- `e.Input(data)`, the data by its runes; `none` means an index out of range.
unfoldable pub input : Terminal → List ℕ → Editor → Option Editor
unfolding input_rune
input t [] e = some e
input t (r ∷ rs) e = elim (input_rune t r e) [ none ↦ none | some e' ↦ input t rs e' ]
