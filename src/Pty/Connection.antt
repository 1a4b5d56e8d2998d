-- ===== src/Pty/Connection.antt =====
-- shell/pty/applet_js.go: one connection, and the loop that reconnects.
pub mod Passes
pub mod Events
pub mod Typing
pub mod Order
use websh.Base.{
  ℕ, zero, suc, ◌+◌, Bool, true, false, not, ◌&&◌, ◌||◌, Option, none, some, List, [], ◌∷◌, ◌++◌,
  ◌==◌, if◌then◌else◌, Bytes, codes, equal, ltb, map,
}
use websh.Pty.Escape.{Escape, fresh, filter}
use websh.Pty.Protocol.{Control, Library, parse_control, retry_wait}

-- What is sent over the socket: keys, or the size of the terminal.
pub data Message : Type 0 where
  binary : Bytes → Message
  size_message : ℕ → ℕ → Message

-- `event`, from the browser's callbacks
pub data Event : Type 0 where
  opened : Event
  text : Bytes → Event
  bytes : Bytes → Event
  failed : Event
  closed : ℕ → Event

-- What the loop of `connect` waits for: the context's end, a tick, keys, or the queue's events.
pub data Input : Type 0 where
  canceled : Input
  tick : Input
  keys : Bytes → Input
  events : List Event → Input

-- What is around the loop when it goes on: whether the socket's `readyState` is 1, and the
-- terminal's size, where there is one.
pub record Around : Type 0 where
  pub ready : Bool
  pub size : Option (ℕ × ℕ)

-- `result` and the variables of `connect`, with what was sent and shown so far.
pub record Connection : Type 0 where
  pub is_open : Bool
  pub quit : Bool
  pub ended : Bool
  pub sid : Bytes
  pub could_not : Bool
  pub esc : Escape
  pub cols : ℕ
  pub rows : ℕ
  pub pending : List Bytes
  pub sent : List Message
  pub shown : Bytes
  pub returned : Bool

abbrev pub new_connection : Connection
new_connection = record {
  is_open = false;
  quit = false;
  ended = false;
  sid = [];
  could_not = false;
  esc = fresh;
  cols = 0;
  rows = 0;
  pending = [];
  sent = [];
  shown = [];
  returned = false;
}

-- `send(b, text)`
unfoldable pub send : Around → Message → Connection → Connection
send a m c = if a.ready then record c { sent = c.sent ++ m ∷ [] } else c

-- `resize()`
unfoldable pub resize : Around → Connection → Connection
unfolding send
resize a c = elim a.size [
  | none ↦ c
  | some (cols, rows) ↦
      if ltb 0 cols && ltb 0 rows && not (cols == c.cols && rows == c.rows)
      then send a (size_message cols rows) (record c { cols = cols; rows = rows })
      else c
]

unfoldable pub send_all : Around → List Bytes → Connection → Connection
unfolding send
send_all a [] c = c
send_all a (b ∷ bs) c = send_all a bs (send a (binary b) c)

-- `case k := <-keys`
unfoldable pub type_keys : Around → Bytes → Connection → Connection
unfolding filter send
type_keys a k c =
    let r = filter c.esc k in
    let c₁ = record c { esc = r.after } in
    let c₂ = elim r.out as (λ _. Connection) [
      | [] ↦ c₁
      | x ∷ xs ↦
          if c.is_open
          then send a (binary (x ∷ xs)) c₁
          else record c₁ { pending = c₁.pending ++ (x ∷ xs) ∷ [] }
    ] in
    if r.quit then record c₂ { quit = true; returned = true } else c₂

abbrev text_message : Bytes → Option Control → Connection → Connection
text_message b none c = record c { shown = c.shown ++ b }
text_message b (some m) c =
    if equal m.kind (codes "session") && not (equal m.id []) then record c { sid = m.id } else c

-- one event of the queue
unfoldable pub take_event : Library → Around → Event → Connection → Connection
unfolding equal parse_control resize send_all
take_event l a opened c = record (send_all a c.pending (resize a (record c { is_open = true }))) {
  pending = [];
}
take_event l a (text b) c = text_message b (parse_control l b) c
take_event l a (bytes b) c = record c { shown = c.shown ++ b }
take_event l a failed c = if c.is_open then c else record c { could_not = true }
take_event l a (closed code) c = record c { ended = code == 1000; returned = true }

-- the events of the queue, up to the one that closes
unfoldable pub take_events : Library → Around → List Event → Connection → Connection
unfolding take_event
take_events l a [] c = c
take_events l a (e ∷ es) c =
    let c' = take_event l a e c in
    let rest = take_events l a es c' in if c'.returned then c' else rest

-- one round of the loop of `connect`
unfoldable pub connect_round : Library → Around → Input → Connection → Connection
unfolding resize take_events type_keys
connect_round l a canceled c = record c { returned = true }
connect_round l a tick c = if c.is_open then resize a c else c
connect_round l a (keys k) c = type_keys a k c
connect_round l a (events es) c = take_events l a es c

-- `[pty: closed]`, the error of a connection that did not open, `[pty: session ended]` and
-- `[pty: reconnecting]`
pub data Notice : Type 0 where
  closed_notice error_notice ended_notice reconnecting : Notice

-- How the loop of `run` goes on behind a connection: it returns a status and what it prints, or
-- it waits and connects again.
pub data After : Type 0 where
  returns : ℕ → Option Notice → After
  waits : ℕ → Option Notice → After

pub record Runs : Type 0 where
  pub session : Bytes
  pub attempt : ℕ

-- the body of the loop of `run`, for a connection that has ended; `stopped` is `ctx.Err() != nil`
unfoldable pub after_connect : Bool → Connection → Runs → Runs × After
unfolding equal retry_wait
after_connect stopped res r =
    let sid = if equal res.sid [] then r.session else res.sid in
    let attempt = if res.is_open then 0 else r.attempt in
    if res.quit
    then (record r { session = sid }, returns 0 (some closed_notice))
    else if stopped
    then (record r { session = sid }, returns 130 none)
    else if equal sid [] || res.ended
    then (if res.could_not
        then (record { session = sid; attempt = attempt }, returns 1 (some error_notice))
        else (record { session = sid; attempt = attempt }, returns 0 (some ended_notice)))
    else (
      record { session = sid; attempt = attempt + 1 },
      waits (retry_wait attempt) (if attempt == 0 then some reconnecting else none),
    )
