-- ===== src/Pty/Connection/Events.antt =====
-- What an event leaves of the keys that were sent or wait, and that an open connection stays open.
use websh.Base.{
  ◌≡◌, refl, ◌∙◌, Bool, true, false, Option, none, some, List, [], ◌∷◌, if◌then◌else◌, Bytes, arith,
}
use websh.Pty.Protocol.{Control, Library, parse_control}
use websh.Pty.Connection.{
  Message, binary, Event, opened, text, bytes, failed, closed, Around, Connection, send, resize,
  send_all, type_keys, text_message, take_event, take_events,
}
use websh.Pty.Connection.Passes.{Passes, Passes-refl, Passes-trans, Passes-if, opened-Passes}

-- An open connection stays open.
module _ (a : Around) where
  send-is_open : (m : Message) (c : Connection) → (send a m c).is_open ≡ c.is_open
  unfolding send
  send-is_open m c = ground (arith, send)

  pub resize-is_open : (c : Connection) → (resize a c).is_open ≡ c.is_open
  unfolding resize send
  resize-is_open c = ground (arith, resize, send)

  send_all-is_open : (bs : List Bytes) (c : Connection) → (send_all a bs c).is_open ≡ c.is_open
  unfolding send_all
  send_all-is_open [] c = refl
  send_all-is_open (b ∷ bs) c =
      send_all-is_open bs (send a (binary b) c) ∙ send-is_open (binary b) c

  pub type_keys-is_open : (k : Bytes) (c : Connection) → (type_keys a k c).is_open ≡ c.is_open
  unfolding type_keys
  type_keys-is_open k c = ground (arith, type_keys, send)

  opened-is_open : (l : Library) (c : Connection) → (take_event l a opened c).is_open ≡ true
  unfolding take_event
  opened-is_open l c =
      send_all-is_open c.pending (resize a (record c { is_open = true }))
      ∙ resize-is_open (record c { is_open = true })

text-Passes : (b : Bytes) (o : Option Control) (c : Connection) → Passes c (text_message b o c)
text-Passes b none c = record {
  same_total = refl;
  same_esc = refl;
  same_quit = refl;
  still_queue = λ q. q;
}
text-Passes b (some m) c =
    Passes-if _ c (record c { sid = m.id }) c
      (record { same_total = refl; same_esc = refl; same_quit = refl; still_queue = λ q. q })
      (Passes-refl c)

module _ (a : Around) (l : Library) where
  take_event-is_open :
      (e : Event) (c : Connection) → c.is_open ≡ true → (take_event l a e c).is_open ≡ true
  unfolding take_event
  take_event-is_open opened c o = opened-is_open a l c
  take_event-is_open (text b) c o = go (parse_control l b)
    where
      go : (m : Option Control) → (text_message b m c).is_open ≡ true
      go none = o
      go (some m) = ground arith
  take_event-is_open (bytes b) c o = o
  take_event-is_open failed c o = ground arith
  take_event-is_open (closed code) c o = o

  take_events-is_open :
      (es : List Event) (c : Connection) → c.is_open ≡ true → (take_events l a es c).is_open ≡ true
  unfolding take_events
  take_events-is_open [] c o = o
  take_events-is_open (e ∷ es) c o =
      let first = take_event-is_open e c o in
      ground (arith, first, take_events-is_open es (take_event l a e c) first)

  take_event-Passes :
      (e : Event) (c : Connection)
      → ((take_event l a e c).is_open ≡ true → a.ready ≡ true)
      → Passes c (take_event l a e c)
  unfolding take_event
  take_event-Passes opened c r = opened-Passes a (r (opened-is_open a l c)) l c
  take_event-Passes (text b) c r = text-Passes b (parse_control l b) c
  take_event-Passes (bytes b) c r = record {
    same_total = refl;
    same_esc = refl;
    same_quit = refl;
    still_queue = λ q. q;
  }
  take_event-Passes failed c r =
      Passes-if c.is_open c c _ (Passes-refl c)
        (record { same_total = refl; same_esc = refl; same_quit = refl; still_queue = λ q. q })
  take_event-Passes (closed code) c r = record {
    same_total = refl;
    same_esc = refl;
    same_quit = refl;
    still_queue = λ q. q;
  }

  pub take_events-Passes :
      (es : List Event) (c : Connection)
      → ((take_events l a es c).is_open ≡ true → a.ready ≡ true)
      → Passes c (take_events l a es c)
  unfolding take_events
  take_events-Passes [] c r = Passes-refl c
  take_events-Passes (e ∷ es) c r =
      go (take_event l a e c).returned (take_events-Passes es (take_event l a e c)) r
    where
      go :
          (b : Bool)
          → (let c' = take_event l a e c in
              ((take_events l a es c').is_open ≡ true → a.ready ≡ true)
              → Passes c' (take_events l a es c'))
          → ((if b then take_event l a e c else take_events l a es (take_event l a e c)).is_open
                ≡ true
              → a.ready ≡ true)
          → Passes c (if b then take_event l a e c else take_events l a es (take_event l a e c))
      go true ih r = take_event-Passes e c r
      go false ih r =
          let c' = take_event l a e c in
          Passes-trans c c' (take_events l a es c')
            (take_event-Passes e c (λ o. r (take_events-is_open es c' o))) (ih r)
