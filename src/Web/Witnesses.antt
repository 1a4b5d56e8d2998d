-- ===== src/Web/Witnesses.antt =====
-- The theorem on the writer of a session at some writes, and some keys in cooked mode.
use websh.Base.{ℕ, ◌≡◌, refl, false, List, [], ◌∷◌, ◌++◌, Bytes, codes}
use websh.Web.{Cooked, typed, interrupt, cooked_input, term_writes}
use websh.Base.Utf8.{encode}
use websh.Web.Lines.{shown_as}
use websh.Web.Writes.{AreTexts, concatenated, new_writer, term_writes-shown}

abbrev no_keys : Cooked
no_keys = record { line = []; items = []; echo = [] }

-- A word erased, a rune erased, an escape, and Enter; and the end of the input.
keys_cooked :
    ((cooked_input no_keys
        (codes "cat a" ++ (0x17 ∷ codes "bx") ++ (0x7f ∷ 0x1b ∷ b'\n' ∷ []))).items
      ≡ typed (codes "cat b" ++ (0x1b ∷ b'\n' ∷ [])) ∷ [])
    × ((cooked_input no_keys (4 ∷ [])).items ≡ interrupt ∷ [])
unfolding cooked_input
keys_cooked = (refl, refl)

-- An `é` that is cut between two writes.
abbrev two_writes : List Bytes
two_writes = (b'a' ∷ b'\n' ∷ 0xC3 ∷ []) ∷ (0xA9 ∷ b'b' ∷ []) ∷ []

abbrev the_runes : List ℕ
the_runes = b'a' ∷ b'\n' ∷ 0xE9 ∷ b'b' ∷ []

term_writes-shown_example :
    let v = term_writes false new_writer two_writes in
    AreTexts v.term × (concatenated v.term ≡ encode (shown_as false the_runes)) × (v.tail ≡ [])
unfolding concatenated encode
term_writes-shown_example = term_writes-shown false the_runes two_writes refl
