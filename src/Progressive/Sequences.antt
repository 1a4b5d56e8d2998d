-- ===== src/Progressive/Sequences.antt =====
-- The sequence that a host writes for an event, and what the filter makes of it.
use websh.Base.{
  ℕ, suc, ◌+◌, ◌<◌, ◌≡◌, refl, ap, ◌∙◌, true, false, some, List, [], ◌∷◌, ◌++◌, ◌==◌, Bytes, index,
  index_byte, zero, length, ltb, lt→ltb, arith, append-nil,
}
use websh.Base.Parts.{take-length, drop-more}
use websh.Progressive.Filter.{
  event_head, terminator, Event, Library, channel_size, deliver, hold, take_loop, take_input,
}

-- `EventSeq(id, e)` for the JSON of `e`; `encode64` is base64.
unfoldable pub event_seq : (Bytes → Bytes) → Bytes → Bytes → Bytes
event_seq encode64 id json = event_head ++ ((id ++ b';' ∷ encode64 json) ++ 0x1b ∷ b'\\' ∷ [])

-- No byte of the text is `b`.
abbrev pub Without : ℕ → Bytes → Type 0
Without b [] = b ≡ b
Without b (c ∷ s) = ((c == b) ≡ false) × Without b s

index-event_head :
    (s t : Bytes) → Without 0x1b s → index (s ++ (event_head ++ t)) event_head ≡ some (length s)
unfolding index
index-event_head [] t h = refl
index-event_head (c ∷ s) t h = rw (h.0, index-event_head s t h.1) refl

terminator-st :
    (s t : Bytes)
    → Without 7 s
    → Without 0x1b s
    → terminator (s ++ 0x1b ∷ b'\\' ∷ t) ≡ some (length s, 2)
unfolding terminator
terminator-st [] t h k = refl
terminator-st (c ∷ s) t h k = rw (h.0, k.0, terminator-st s t h.1 k.1) refl

index_byte-first : (b : ℕ) (s t : Bytes) → Without b s → index_byte b (s ++ b ∷ t) ≡ some (length s)
unfolding index_byte
index_byte-first b [] t h = ground arith
index_byte-first b (c ∷ s) t h = rw (h.0, index_byte-first b s t h.1) refl

Without-append : (b : ℕ) (s t : Bytes) → Without b s → Without b t → Without b (s ++ t)
Without-append b [] t h k = k
Without-append b (c ∷ s) t h k = (h.0, Without-append b s t h.1 k)

deliver-event :
    (l : Library) (ch : List Event) (id enc json : Bytes)
    → Without b';' id
    → l.decode64 enc ≡ some json
    → l.is_event json ≡ true
    → length ch < channel_size
    → deliver l (id ++ b';' ∷ enc) ch ≡ ch ++ record { id = id; json = json } ∷ []
unfolding deliver
deliver-event l ch id enc json c d e r =
    let room : ltb (length ch) channel_size ≡ true = lt→ltb (length ch) channel_size r in
    simp (
      deliver,
      index_byte-first b';' id enc c,
      drop-more 1 id (b';' ∷ enc),
      take-length id (b';' ∷ enc),
      d,
      e,
      room,
    )

take_loop-nil :
    (fuel : ℕ) (l : Library) (ch : List Event)
    → take_loop fuel l ch [] ≡ record { out = []; held = []; channel = ch }
unfolding take_loop index hold
take_loop-nil zero l ch = refl
take_loop-nil (suc fuel) l ch = refl

take_loop-event :
    (fuel : ℕ) (l : Library) (ch : List Event) (before body : Bytes)
    → Without 0x1b before
    → Without 7 body
    → Without 0x1b body
    → take_loop (suc fuel) l ch (before ++ (event_head ++ (body ++ 0x1b ∷ b'\\' ∷ [])))
      ≡ record { out = before; held = []; channel = deliver l body ch }
unfolding take_loop
take_loop-event fuel l ch before body c d e =
    let tail = body ++ 0x1b ∷ b'\\' ∷ [] in
    simp (
      take_loop,
      index-event_head before tail c,
      drop-more (length event_head) before (event_head ++ tail),
      terminator-st body [] d e,
      take-length before (event_head ++ tail),
      take-length body (0x1b ∷ b'\\' ∷ []),
      drop-more 2 body (0x1b ∷ b'\\' ∷ []),
      take_loop-nil fuel l (deliver l body ch),
      append-nil before,
    )

-- What a host writes for an event, behind typed keys without an ESC, comes out of the filter as the
-- keys and that event, where the channel has room: for an id without `;`, BEL or ESC, a base64
-- that decodes and has no BEL and no ESC, and a JSON text that is an event.
pub take_input-event_seq :
    (l : Library) (encode64 : Bytes → Bytes) (ch : List Event) (before id json : Bytes)
    → Without 0x1b before
    → Without b';' id
    → Without 7 id
    → Without 0x1b id
    → Without 7 (encode64 json)
    → Without 0x1b (encode64 json)
    → l.decode64 (encode64 json) ≡ some json
    → l.is_event json ≡ true
    → length ch < channel_size
    → take_input l ch (before ++ event_seq encode64 id json)
      ≡ record { out = before; held = []; channel = ch ++ record { id = id; json = json } ∷ [] }
unfolding take_input event_seq
take_input-event_seq l encode64 ch before id json b s t u v w d e r =
    let body = id ++ b';' ∷ encode64 json in
    let input = before ++ event_seq encode64 id json in
    let more : length input + 1 ≡ suc (length input) = omega arith in
    ap (λ n. take_loop n l ch input) more
    ∙ (take_loop-event (length input) l ch before body b
          (Without-append 7 id (b';' ∷ encode64 json) t (refl, v))
          (Without-append 0x1b id (b';' ∷ encode64 json) u (refl, w))
        ∙ ap (λ c. record { out = before; held = []; channel = c })
            (deliver-event l ch id (encode64 json) json s d e r))
