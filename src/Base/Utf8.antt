-- ===== src/Base/Utf8.antt =====
-- Go's conversions between a string, its bytes, and runes: `range s`, `[]rune(s)` and
-- `utf8.EncodeRune`. A byte that begins no valid sequence is read as U+FFFD, one byte wide.
use websh.Base.{
  ℕ, zero, suc, ◌+◌, ◌-◌, ◌*◌, ◌/◌, ◌%◌, ◌≡◌, refl, Bool, not, ◌&&◌, ◌||◌, List, [], ◌∷◌, ◌++◌, map,
  ltb, ◌==◌, if◌then◌else◌, Bytes, within,
}

abbrev pub rune_error : ℕ
rune_error = 0xFFFD

abbrev continuation : ℕ → Bool
continuation c = within 0x80 0xBF c

-- The second byte that may follow a lead byte of three, and of four.
abbrev second_of_three : ℕ → ℕ → Bool
second_of_three a b =
    if a == 0xE0
    then within 0xA0 0xBF b
    else if a == 0xED
    then within 0x80 0x9F b
    else continuation b

abbrev second_of_four : ℕ → ℕ → Bool
second_of_four a b =
    if a == 0xF0
    then within 0x90 0xBF b
    else if a == 0xF4
    then within 0x80 0x8F b
    else continuation b

abbrev invalid : ℕ × ℕ
invalid = (rune_error, 0)

decode_two : ℕ → Bytes → ℕ × ℕ
decode_two a [] = invalid
decode_two a (b ∷ _) = if continuation b then ((a - 0xC0) * 64 + (b - 0x80), 1) else invalid

decode_three : ℕ → Bytes → ℕ × ℕ
decode_three a (b ∷ c ∷ _) =
    if second_of_three a b && continuation c
    then ((a - 0xE0) * 4096 + (b - 0x80) * 64 + (c - 0x80), 2)
    else invalid
decode_three a _ = invalid

decode_four : ℕ → Bytes → ℕ × ℕ
decode_four a (b ∷ c ∷ d ∷ _) =
    if second_of_four a b && continuation c && continuation d
    then ((a - 0xF0) * 262144 + (b - 0x80) * 4096 + (c - 0x80) * 64 + (d - 0x80), 3)
    else invalid
decode_four a _ = invalid

-- `utf8.DecodeRune` at a first byte: the rune, and how many bytes follow the first.
unfoldable pub decode_rune : ℕ → Bytes → ℕ × ℕ
unfolding decode_four decode_three decode_two
decode_rune a s =
    if ltb a 0x80
    then (a, 0)
    else if within 0xC2 0xDF a
    then decode_two a s
    else if within 0xE0 0xEF a
    then decode_three a s
    else if within 0xF0 0xF4 a
    then decode_four a s
    else invalid

-- The runes of a string; the number counts the bytes of the last rune still to pass.
unfoldable pub runes_from : ℕ → Bytes → List ℕ
unfolding decode_rune
runes_from (suc k) (a ∷ s) = runes_from k s
runes_from zero (a ∷ s) = let r = decode_rune a s in r.0 ∷ runes_from r.1 s
runes_from _ [] = []

unfoldable pub runes : Bytes → List ℕ
unfolding runes_from
runes = runes_from 0

abbrev pub is_scalar : ℕ → Bool
is_scalar r = ltb r 0xD800 || within 0xE000 0x10FFFF r

-- `utf8.EncodeRune`, also `string(r)`
unfoldable pub encode_rune : ℕ → Bytes
encode_rune r =
    if ltb r 0x80
    then r ∷ []
    else if ltb r 0x800
    then (0xC0 + r / 64) ∷ (0x80 + r % 64) ∷ []
    else if not (is_scalar r)
    then 0xEF ∷ 0xBF ∷ 0xBD ∷ []
    else if ltb r 0x10000
    then (0xE0 + r / 4096) ∷ (0x80 + r / 64 % 64) ∷ (0x80 + r % 64) ∷ []
    else (0xF0 + r / 262144) ∷ (0x80 + r / 4096 % 64) ∷ (0x80 + r / 64 % 64) ∷ (0x80 + r % 64) ∷ []

unfoldable pub encode : List ℕ → Bytes
unfolding encode_rune
encode [] = []
encode (r ∷ rs) = encode_rune r ++ encode rs

-- `strings.Map(f, s)` for an `f` that drops nothing.
unfoldable pub map_runes : (ℕ → ℕ) → Bytes → Bytes
unfolding encode runes
map_runes f s = encode (map f (runes s))

runes_test :
    runes (0x61 ∷ 0xC3 ∷ 0xA9 ∷ 0xE2 ∷ 0x82 ∷ 0xAC ∷ 0xC3 ∷ 0x28 ∷ [])
    ≡ 0x61 ∷ 0xE9 ∷ 0x20AC ∷ 0xFFFD ∷ 0x28 ∷ []
unfolding runes
runes_test = refl
