-- ===== src/Pty/Escape.antt =====
-- shell/pty/protocol.go: `escape`, which finds ssh's escapes in the keys going out.
pub mod Chunks
use websh.Base.{
  ℕ, Bool, true, false, not, ◌&&◌, ◌||◌, List, [], ◌∷◌, ◌++◌, ◌==◌, if◌then◌else◌, Bytes,
}

-- `escape`
pub record Escape : Type 0 where
  pub mid_line : Bool
  pub tilde : Bool

abbrev pub fresh : Escape
fresh = record { mid_line = false; tilde = false }

-- What one key comes to: bytes to send and the next state, or the end of the session.
pub data Key : Type 0 where
  sends : Bytes → Escape → Key
  quits : Key

-- behind the `if e.tilde` of `filter`
unfoldable pub plain_key : Escape → ℕ → Bytes × Escape
plain_key e c =
    if not e.mid_line && c == b'~'
    then ([], record e { tilde = true })
    else (c ∷ [], record e { mid_line = not (c == b'\r') && not (c == b'\n') })

unfoldable pub key : Escape → ℕ → Key
unfolding plain_key
key e c =
    if e.tilde
    then (let e' = record e { tilde = false } in
        if c == b'.'
        then quits
        else if c == b'~'
        then sends (b'~' ∷ []) (record e' { mid_line = true })
        else (let r = plain_key e' c in sends (b'~' ∷ r.0) r.1))
    else (let r = plain_key e c in sends r.0 r.1)

-- What `filter` returns, with the state that it leaves.
pub record Filtered : Type 0 where
  pub out : Bytes
  pub quit : Bool
  pub after : Escape

-- `e.filter(in)`
unfoldable pub filter : Escape → Bytes → Filtered
unfolding key
filter e [] = record { out = []; quit = false; after = e }
filter e (c ∷ s) = elim (key e c) [
  | quits ↦ record { out = []; quit = true; after = record e { tilde = false } }
  | sends b e' ↦ let r = filter e' s in record r { out = b ++ r.out }
]
