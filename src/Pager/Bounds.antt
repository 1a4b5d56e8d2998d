-- ===== src/Pager/Bounds.antt =====
-- The pager returns, and shows no page behind the last one.
use websh.Base.{
  ℕ, zero, suc, ◌+◌, ◌-◌, ◌≤◌, ◌≡◌, ◌⊎◌, inl, inr, refl, ap, Bool, true, false, ◌||◌, Option, none,
  some, [], ◌∷◌, ◌++◌, ◌==◌, if◌then◌else◌, Bytes, ltb, length, arith,
}
use websh.Base.Int.{ℤ, pos, negsuc}
use websh.Edit.Keys.{read_byte, skip_byte}
use websh.Pager.{
  Text, max_top, clamp_top, draw_page, Move, leaves, ignores, goes, page_key, less_key, less_loop,
  run_less,
}

clamp_top-le : (last : ℕ) (n : ℤ) → clamp_top last n ≤ last
unfolding clamp_top
clamp_top-le last (pos n) = ground (arith, clamp_top)
clamp_top-le last (negsuc n) = omega arith

-- A key leaves at most `n` bytes of the input.
data IsMove (n : ℕ) : Move → Type 0 where
  leaves_move : IsMove n leaves
  ignores_move : (left : Bytes) → length left ≤ n → IsMove n (ignores left)
  goes_move : (top : ℤ) (left : Bytes) → length left ≤ n → IsMove n (goes top left)

IsMove-if :
    (n : ℕ) (b : Bool) (o p : Move) → IsMove n o → IsMove n p → IsMove n (if b then o else p)
IsMove-if n true o p h k = h
IsMove-if n false o p h k = k

length-read_byte : (s : Bytes) → length (read_byte s).1 ≤ length s
length-read_byte [] = omega arith
length-read_byte (c ∷ s) = omega arith

page_key-IsMove :
    (n : ℕ) (t : Text) (top b : ℕ) (rest : Bytes)
    → length rest ≤ n
    → IsMove n (page_key t top b rest)
unfolding page_key
page_key-IsMove n t top b rest r =
    let skipped : length (skip_byte rest) ≤ n = omega (arith, length-read_byte rest) in
    IsMove-if n (b == b'A') _ _ (goes_move _ _ r) (
      IsMove-if n (b == b'B') _ _ (goes_move _ _ r) (
        IsMove-if n (b == b'5') _ _ (goes_move _ _ skipped) (
          IsMove-if n (b == b'6') _ _ (goes_move _ _ skipped) (
            IsMove-if n (b == b'H') _ _ (goes_move _ _ r)
              (IsMove-if n (b == b'F') _ _ (goes_move _ _ r) (goes_move _ _ r))))))

less_key-IsMove :
    (t : Text) (top c : ℕ) (rest : Bytes) → IsMove (length rest) (less_key t top c rest)
unfolding less_key
less_key-IsMove t top c rest =
    let n = length rest in
    let r = read_byte rest in
    let all : length rest ≤ length rest = omega arith in
    let first : length r.1 ≤ length rest = length-read_byte rest in
    let second : length (read_byte r.1).1 ≤ length rest = omega (arith, length-read_byte r.1) in
    IsMove-if n (c == b'q' || c == 3) _ _ leaves_move (
      IsMove-if n (c == b' ' || c == b'f') _ _ (goes_move _ _ all) (
        IsMove-if n (c == b'b') _ _ (goes_move _ _ all) (
          IsMove-if n (c == b'j' || (c == b'\r' || c == b'\n')) _ _ (goes_move _ _ all) (
            IsMove-if n (c == b'k') _ _ (goes_move _ _ all) (
              IsMove-if n (c == b'g') _ _ (goes_move _ _ all) (
                IsMove-if n (c == b'G') _ _ (goes_move _ _ all) (
                  IsMove-if n (c == 0x1b) _ _
                    (IsMove-if n (r.0 == b'[' || r.0 == b'O')
                      (page_key t top (read_byte r.1).0 (read_byte r.1).1) (ignores r.1)
                      (page_key-IsMove n t top (read_byte r.1).0 (read_byte r.1).1 second)
                      (ignores_move r.1 first))
                    (ignores_move rest all))))))))

less_loop-le :
    (fuel : ℕ) (t : Text) (top : ℕ) (input : Bytes)
    → top ≤ max_top t
    → length input ≤ fuel
    → (q : ℕ × Bytes) × (less_loop fuel t top input ≡ some q) × (q.0 ≤ max_top t)
unfolding less_loop
less_loop-le fuel t top [] h le = ((top, []), refl, h)
less_loop-le zero t top (c ∷ rest) h le = ground arith
less_loop-le (suc fuel) t top (c ∷ rest) h le =
    go (less_key t top c rest) (less_key-IsMove t top c rest)
      (λ top' left k m. less_loop-le fuel t top' left k (omega (arith, le)))
  where
    go :
        (m : Move)
        → IsMove (length rest) m
        → ((top' : ℕ) (left : Bytes)
            → top' ≤ max_top t
            → length left ≤ length rest
            → (q : ℕ × Bytes) × (less_loop fuel t top' left ≡ some q) × (q.0 ≤ max_top t))
        → (q : ℕ × Bytes) × (elim m as (λ _. Option (ℕ × Bytes)) [
          | leaves ↦ some (top, [])
          | ignores left ↦ less_loop fuel t top left
          | goes n left ↦
              let top' = clamp_top (max_top t) n in
              elim (less_loop fuel t top' left) [
                | none ↦ none
                | some q ↦ some (q.0, draw_page t top' ++ q.1)
              ]
        ]
            ≡ some q)
          × (q.0 ≤ max_top t)
    go leaves leaves_move ih = ((top, []), refl, h)
    go (ignores left) (ignores_move _ k) ih = ih top left h k
    go (goes n left) (goes_move _ _ k) ih =
        let r = ih (clamp_top (max_top t) n) left (clamp_top-le (max_top t) n) k in
        (
          (r.0.0, draw_page t (clamp_top (max_top t) n) ++ r.0.1),
          ap
              (λ o. elim o as (λ _. Option (ℕ × Bytes)) [
                | none ↦ none
                | some q ↦ some (q.0, draw_page t (clamp_top (max_top t) n) ++ q.1)
              ])
              r.1,
          r.2,
        )

-- A page starts at the first line, or is full.
le-max_top : (t : Text) (top : ℕ) → top ≤ max_top t → (top ≡ 0) ⊎ (top + t.page ≤ length t.lines)
unfolding max_top
le-max_top t top h = go (ltb (length t.lines) t.page) refl h
  where
    go :
        (b : Bool)
        → ltb (length t.lines) t.page ≡ b
        → top ≤ (if b then 0 else length t.lines - t.page)
        → (top ≡ 0) ⊎ (top + t.page ≤ length t.lines)
    go true e k = inl (omega (arith, k))
    go false e k = inr (ground (arith, e, k))

-- Whatever the lines and the keys, `less` returns, and the page that it has shown last starts at the
-- first line or is full: no key goes behind the last page.
pub run_less-le :
    (t : Text) (input : Bytes)
    → (q : ℕ × Bytes) × (run_less t input ≡ some q) × ((q.0 ≡ 0) ⊎ (q.0 + t.page ≤ length t.lines))
unfolding run_less
run_less-le t input =
    let r = less_loop-le (length input) t 0 input (omega arith) (omega arith) in
    (
      (r.0.0, draw_page t 0 ++ r.0.1),
      ap
          (λ o. elim o as (λ _. Option (ℕ × Bytes)) [
            | none ↦ none
            | some q ↦ some (q.0, draw_page t 0 ++ q.1)
          ])
          r.1,
      le-max_top t r.0.0 r.2,
    )
