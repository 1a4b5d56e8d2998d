-- ===== src/Pty/Connection/Order.antt =====
-- The keys that go out over a connection, in the order typed.
use websh.Base.{
  ◌≡◌, refl, sym, ap, ap₂, subst, ◌∙◌, Bool, true, false, [], ◌++◌, if◌then◌else◌, Bytes, arith,
  append-nil, Bool-cases, inl, inr,
}
use websh.Pty.Escape.{Escape, fresh, filter}
use websh.Pty.Escape.Chunks.{filter-append}
use websh.Pty.Protocol.{Library}
use websh.Pty.Connection.{
  Input, canceled, tick, keys, events, Around, Connection, new_connection, resize, connect_round,
}
use websh.Pty.Connection.Passes.{
  binaries, concat, total, IsQueue, Passes, Passes-refl, resize-Passes,
}
use websh.Pty.Connection.Events.{resize-is_open, type_keys-is_open, take_events-Passes}
use websh.Pty.Connection.Typing.{Types, typed, type_keys-Types}

-- The keys that a round brings.
abbrev pub keys_of : Input → Bytes
keys_of canceled = []
keys_of tick = []
keys_of (keys k) = k
keys_of (events _) = []

-- The connections that the loop comes to, with the keys typed so far, where `readyState` is 1
-- whenever the connection is open.
pub data Reach (l : Library) : Connection → Bytes → Type 0 where
  start : Reach l new_connection []
  round :
      (c : Connection) (typed : Bytes) (a : Around) (i : Input)
      → Reach l c typed
      → c.returned ≡ false
      → ((connect_round l a i c).is_open ≡ true → a.ready ≡ true)
      → Reach l (connect_round l a i c) (typed ++ keys_of i)

pub record Kept (c : Connection) (typed : Bytes) : Type 0 where
  pub same : total c ≡ (filter fresh typed).out
  pub esc : c.esc ≡ (filter fresh typed).after
  pub quit : c.quit ≡ (filter fresh typed).quit
  pub ends : c.quit ≡ true → c.returned ≡ true
  pub is_queue : IsQueue c

Kept-Passes :
    (c d : Connection) (typed : Bytes)
    → Kept c typed
    → c.quit ≡ false
    → Passes c d
    → Kept d (typed ++ [])
Kept-Passes c d typed p z s = subst (Kept d) (sym (append-nil typed)) (record {
  same = s.same_total ∙ p.same;
  esc = s.same_esc ∙ p.esc;
  quit = s.same_quit ∙ p.quit;
  ends = λ y. ground (arith, s.same_quit);
  is_queue = s.still_queue p.is_queue;
})

Kept-Types :
    (c d : Connection) (typed k : Bytes)
    → Kept c typed
    → c.quit ≡ false
    → Types c d k
    → Kept d (typed ++ k)
Kept-Types c d typed k p z s = record {
  same =
      s.more
      ∙ (ap₂ (λ x (e : Escape). x ++ (filter e k).out) p.same p.esc ∙ sym (ap (λ r. r.out) both));
  esc = s.esc ∙ (ap (λ (e : Escape). (filter e k).after) p.esc ∙ sym (ap (λ r. r.after) both));
  quit = s.quit z ∙ (ap (λ (e : Escape). (filter e k).quit) p.esc ∙ sym (ap (λ r. r.quit) both));
  ends = s.ends z;
  is_queue = s.still_queue;
}
  where
    both : filter fresh (typed ++ k) ≡ (
        let q = filter (filter fresh typed).after k in
        record q { out = (filter fresh typed).out ++ q.out })
    both =
        filter-append fresh typed k
        ∙ ap
            (λ b.
              if b
              then filter fresh typed
              else (let q = filter (filter fresh typed).after k in
                  record q { out = (filter fresh typed).out ++ q.out }))
            (sym p.quit ∙ z)

-- `quit` is only set where the loop returns.
Kept-on : (c : Connection) (typed : Bytes) → Kept c typed → c.returned ≡ false → c.quit ≡ false
Kept-on c typed p z = elim (Bool-cases c.quit) [ inl y ↦ ground (arith, p.ends y) | inr n ↦ n ]

round-Kept :
    (l : Library) (a : Around) (i : Input) (c : Connection) (typed : Bytes)
    → ((connect_round l a i c).is_open ≡ true → a.ready ≡ true)
    → c.quit ≡ false
    → Kept c typed
    → Kept (connect_round l a i c) (typed ++ keys_of i)
unfolding connect_round
round-Kept l a canceled c typed r z p =
    Kept-Passes c _ typed p z
      (record { same_total = refl; same_esc = refl; same_quit = refl; still_queue = λ q. q })
round-Kept l a tick c typed r z p = Kept-Passes c _ typed p z (go c.is_open refl r)
  where
    go :
        (b : Bool)
        → c.is_open ≡ b
        → ((if b then resize a c else c).is_open ≡ true → a.ready ≡ true)
        → Passes c (if b then resize a c else c)
    go true o r = resize-Passes a (r (resize-is_open a c ∙ o)) c
    go false o r = Passes-refl c
round-Kept l a (keys k) c typed r z p =
    Kept-Types c _ typed k p z
      (type_keys-Types a k c p.is_queue (λ o. r (type_keys-is_open a k c ∙ o)))
round-Kept l a (events es) c typed r z p = Kept-Passes c _ typed p z (take_events-Passes a l es c r)

Reach-Kept : (l : Library) (c : Connection) (typed : Bytes) → Reach l c typed → Kept c typed
unfolding filter
Reach-Kept l c typed start = record {
  same = refl;
  esc = refl;
  quit = refl;
  ends = λ z. z;
  is_queue = λ z. refl;
}
Reach-Kept l c typed (round c₀ t a i h n r) =
    let p = Reach-Kept l c₀ t h in round-Kept l a i c₀ t r (Kept-on c₀ t p n) p

-- While `readyState` is 1 whenever the connection is open, what was typed so far, filtered by `escape` as
-- one text, is what went out with what waits for the socket to open, and none waits once it is
-- open: no key is lost, sent twice or out of order, however the rounds of the loop interleave.
pub Reach-sent :
    (l : Library) (c : Connection) (typed : Bytes)
    → Reach l c typed
    → (binaries c.sent ++ concat c.pending ≡ (filter fresh typed).out)
      × (c.is_open ≡ true → binaries c.sent ≡ (filter fresh typed).out)
Reach-sent l c typed h =
    let p = Reach-Kept l c typed h in
    (
      p.same,
      λ o.
          sym (append-nil (binaries c.sent))
          ∙ (ap (λ x. binaries c.sent ++ concat x) (sym (p.is_queue o)) ∙ p.same),
    )
