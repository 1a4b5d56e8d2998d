-- ===== src/Progressive/Filter.antt =====
-- progressive/events.go: `Filter`, which takes the host's events out of a terminal's input, and
-- `terminator` of progressive/progressive.go.
use websh.Base.{
  ℕ, zero, suc, ◌+◌, ◌-◌, Bool, true, false, ◌&&◌, Option, none, some, List, [], ◌∷◌, ◌++◌, ◌==◌,
  if◌then◌else◌, Bytes, codes, equal, index, index_byte, length, take, drop, ltb, leb,
}
use websh.Base.Result.{Fault}

-- `eventHead`
abbrev pub event_head : Bytes
event_head = 0x1b ∷ codes "]7337;event;"

abbrev pub one_more : ℕ × ℕ → ℕ × ℕ
one_more r = (suc r.0, r.1)

abbrev pub starts_with_backslash : Bytes → Bool
starts_with_backslash [] = false
starts_with_backslash (c ∷ s) = c == b'\\'

-- `terminator(b)`; `none` is -1.
unfoldable pub terminator : Bytes → Option (ℕ × ℕ)
terminator [] = none
terminator (c ∷ s) =
    let rest = terminator s in
    if c == 7
    then some (0, 1)
    else if c == 0x1b && starts_with_backslash s
    then some (0, 2)
    else elim rest [ none ↦ none | some r ↦ some (one_more r) ]

-- An event: the placement, and the JSON that says the rest.
pub record Event : Type 0 where
  pub id : Bytes
  pub json : Bytes

-- What `deliver` calls: base64, `none` where it does not decode, and whether `json.Unmarshal` takes
-- a text for an `Event`.
pub record Library : Type 0 where
  pub decode64 : Bytes → Option Bytes
  pub is_event : Bytes → Bool

-- the room of the channel
abbrev pub channel_size : ℕ
channel_size = 256

-- `f.deliver(body)`, to what is in the channel
unfoldable pub deliver : Library → Bytes → List Event → List Event
unfolding index_byte
deliver l body ch = elim (index_byte b';' body) [
  | none ↦ ch
  | some i ↦ elim (l.decode64 (drop (i + 1) body)) [
    | none ↦ ch
    | some raw ↦
        if l.is_event raw && ltb (length ch) channel_size
        then ch ++ record { id = take i body; json = raw } ∷ []
        else ch
  ]
]

-- `bytes.HasSuffix(b, s)`
unfoldable pub has_suffix : Bytes → Bytes → Bool
unfolding equal
has_suffix b s = leb (length s) (length b) && equal (drop (length b - length s) b) s

-- The loop on `k`: what goes out of `b`, and the start of an event's head that is held.
unfoldable pub hold : ℕ → Bytes → Bytes × Bytes
unfolding has_suffix
hold zero b = (b, [])
hold (suc k) b =
    let rest = hold k b in
    if leb 3 (suc k)
    then (if has_suffix b (take (suc k) event_head)
        then (take (length b - suc k) b, drop (length b - suc k) b)
        else rest)
    else (b, [])

-- What `take` leaves: what goes out, what is held, and the channel.
pub record Taken : Type 0 where
  pub out : Bytes
  pub held : Bytes
  pub channel : List Event

-- `f.take(b)`, on fuel for its loop; `ch` is what is in the channel.
unfoldable pub take_loop : ℕ → Library → List Event → Bytes → Taken
unfolding deliver hold index terminator
take_loop zero l ch b = record { out = b; held = []; channel = ch }
take_loop (suc fuel) l ch b = elim (index b event_head) [
  | none ↦
      let k = if ltb (length b) (length event_head - 1) then length b else length event_head - 1 in
      let r = hold k b in record { out = r.0; held = r.1; channel = ch }
  | some i ↦
      let tail = drop (i + length event_head) b in
      elim (terminator tail) [
        | none ↦ record { out = take i b; held = drop i b; channel = ch }
        | some (end, n) ↦
            let r = take_loop fuel l (deliver l (take end tail) ch) (drop (end + n) tail) in
            record r { out = take i b ++ r.out }
      ]
]

-- Every event takes a byte, so the length is fuel enough.
unfoldable pub take_input : Library → List Event → Bytes → Taken
unfolding take_loop
take_input l ch b = take_loop (length b + 1) l ch b

-- `filter`
pub record Filter : Type 0 where
  pub held : Bytes
  pub out : Bytes
  pub fault : Option Fault
  pub channel : List Event
  pub closed : Bool

-- What a read of the source gives: bytes, and an error or none.
pub record Chunk : Type 0 where
  pub got : Bytes
  pub err : Option Fault

-- What `Read` returns: bytes, no byte and no error, or an error; or the source gives nothing yet.
pub data Reply : Type 0 where
  gives : Bytes → Reply
  wakes : Reply
  fails : Fault → Reply
  blocks : Reply

pub record Reading : Type 0 where
  pub reply : Reply
  pub filter : Filter
  pub source : List Chunk

-- behind the loop of `Read` into `n` bytes
abbrev pub give : ℕ → Filter → List Chunk → Reading
give n f cs = record {
  reply = gives (take n f.out);
  filter = record f { out = drop n f.out };
  source = cs;
}

-- where an error has come
unfoldable pub at_end : ℕ → Fault → Filter → List Chunk → Reading
at_end n e f cs =
    let f' = record f { closed = true } in
    elim f.held as (λ _. Reading) [
      | [] ↦ record { reply = fails e; filter = f'; source = cs }
      | _ ∷ _ ↦ give n (record f' { out = f.held; held = [] }) cs
    ]

-- the filter with what was read
unfoldable pub fill : Library → Chunk → Filter → Filter
unfolding take_input
fill l c f =
    let t = take_input l f.channel (f.held ++ c.got) in
    record f { held = t.held; out = t.out; channel = t.channel; fault = c.err }

-- `f.Read(p)` for a `p` of `n` bytes
unfoldable pub read_filter : Library → ℕ → Filter → List Chunk → Reading
unfolding at_end fill
read_filter l n f [] = elim f.out as (λ _. Reading) [
  | _ ∷ _ ↦ give n f []
  | [] ↦ elim f.fault [
    | some e ↦ at_end n e f []
    | none ↦ record { reply = blocks; filter = f; source = [] }
  ]
]
read_filter l n f (c ∷ cs) =
    let next = read_filter l n (fill l c f) cs in
    elim f.out as (λ _. Reading) [
      | _ ∷ _ ↦ give n f (c ∷ cs)
      | [] ↦ elim f.fault [
        | some e ↦ at_end n e f (c ∷ cs)
        | none ↦
            if equal c.got [] && (elim c.err [ none ↦ true | some _ ↦ false ])
            then record { reply = wakes; filter = f; source = cs }
            else next
      ]
    ]
