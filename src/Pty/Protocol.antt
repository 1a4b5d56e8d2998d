-- ===== src/Pty/Protocol.antt =====
-- shell/pty/protocol.go, retry.go and handler.go: control messages, addresses, waits.
use websh.Base.{
  ℕ, ◌*◌, ◌^◌, ◌&&◌, Bool, false, Option, none, some, [], ◌∷◌, ◌==◌, if◌then◌else◌, Bytes, codes,
  equal, ltb, leb,
}
use websh.Base.Result.{plain, with_text, Result, ok, err, ◌>>=◌}
use websh.Base.Int.{ℤ, pos}

-- `Control`
pub record Control : Type 0 where
  pub kind : Bytes
  pub cols : ℤ
  pub rows : ℤ
  pub id : Bytes

-- `url.URL`: what `WebSocketURL` reads and writes of it, and the rest as it is.
pub record Address : Type 0 where
  pub scheme : Bytes
  pub rest : Bytes
  pub query : Bytes
  pub fragment : Bytes

-- What shell/pty calls and does not implement: `json.Unmarshal` into a `Control`, and package url:
-- `Parse`, `ResolveReference`, `Query().Set` and `Encode` of `sid`, `String`.
pub record Library : Type 0 where
  pub unmarshal : Bytes → Option Control
  pub parse_url : Bytes → Result Address
  pub resolve : Address → Address → Address
  pub with_sid : Bytes → Bytes → Bytes
  pub url_text : Address → Bytes

-- `ParseControl(b)`; `none` means that the message is output.
unfoldable pub parse_control : Library → Bytes → Option Control
unfolding equal
parse_control l [] = none
parse_control l (c ∷ s) =
    if c == b'{'
    then (elim (l.unmarshal (c ∷ s)) [
      | none ↦ none
      | some m ↦ if equal m.kind [] then none else some m
    ])
    else none

-- the scheme of a WebSocket for a scheme, or none
unfoldable pub socket_scheme : Bytes → Option Bytes
unfolding equal
socket_scheme s =
    if equal s (codes "http")
    then some (codes "ws")
    else if equal s (codes "ws")
    then some (codes "ws")
    else if equal s (codes "https")
    then some (codes "wss")
    else if equal s (codes "wss")
    then some (codes "wss")
    else none

abbrev with_session : Library → Bytes → Address → Address
with_session l sid u = if equal sid [] then u else record u { query = l.with_sid u.query sid }

abbrev socket_address : Library → Bytes → Bytes → Address → Option Bytes → Result Bytes
socket_address l target sid u none = err (with_text "not an http or ws address: " target)
socket_address l target sid u (some s) =
    ok (l.url_text (with_session l sid (record u { scheme = s; fragment = [] })))

-- `WebSocketURL(target, base, sid)`
unfoldable pub web_socket_url : Library → Bytes → Bytes → Bytes → Result Bytes
unfolding equal socket_scheme
web_socket_url l target base sid = if equal target [] then err (plain "no address") else do
  b ← l.parse_url base
  t ← l.parse_url target
  socket_address l target sid (l.resolve b t) (socket_scheme (l.resolve b t).scheme)

abbrev pub second : ℕ
second = 1_000_000_000

-- `maxRetryWait`, in nanoseconds
abbrev pub max_retry_wait : ℕ
max_retry_wait = 10 * second

-- `retryWait(n)`, in nanoseconds, for `n` from 0 on
unfoldable pub retry_wait : ℕ → ℕ
retry_wait n =
    if leb 4 n
    then max_retry_wait
    else if ltb (second * 2 ^ n) max_retry_wait
    then second * 2 ^ n
    else max_retry_wait

-- `c > 0 && c <= 0xffff` for an `int`
abbrev fits : ℤ → Bool
fits (pos n) = ltb 0 n && leb n 0xffff
fits _ = false

-- what `Handler` makes of a message that is text: a new size, nothing, or keys for the shell
pub data Received : Type 0 where
  resized : ℤ → ℤ → Received
  ignored : Received
  typed : Bytes → Received

unfoldable pub receive_text : Library → Bytes → Received
unfolding equal parse_control
receive_text l b = elim (parse_control l b) [
  | none ↦ typed b
  | some c ↦
      if equal c.kind (codes "resize") && fits c.cols && fits c.rows
      then resized c.cols c.rows
      else ignored
]
