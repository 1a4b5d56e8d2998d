-- ===== src/Pty/Connection/Passes.antt =====
-- What a step of a connection leaves of the keys that were sent or wait.
use websh.Base.{
  ℕ, ◌≡◌, refl, sym, ap, ap₂, subst, map, ltb, not, ◌&&◌, ◌==◌, ◌∙◌, Bool, true, false, Option,
  none, some, List, [], ◌∷◌, ◌++◌, if◌then◌else◌, Bytes, append_assoc, append-nil,
}
use websh.Pty.Protocol.{Library}
use websh.Pty.Connection.{
  Message, binary, size_message, opened, Around, Connection, send, resize, send_all, take_event,
}

-- The keys among the messages, in order.
abbrev pub binaries : List Message → Bytes
binaries [] = []
binaries (binary b ∷ ms) = b ++ binaries ms
binaries (size_message _ _ ∷ ms) = binaries ms

abbrev pub concat : List Bytes → Bytes
concat [] = []
concat (b ∷ bs) = b ++ concat bs

pub binaries-append : (xs ys : List Message) → binaries (xs ++ ys) ≡ binaries xs ++ binaries ys
binaries-append [] ys = refl
binaries-append (binary b ∷ xs) ys = simp (binaries-append xs ys, append_assoc)
binaries-append (size_message _ _ ∷ xs) ys = binaries-append xs ys

pub concat-append : (xs ys : List Bytes) → concat (xs ++ ys) ≡ concat xs ++ concat ys
concat-append [] ys = refl
concat-append (b ∷ xs) ys = simp (concat-append xs ys, append_assoc)

-- The keys that were sent, and those that wait.
abbrev pub total : Connection → Bytes
total c = binaries c.sent ++ concat c.pending

-- Keys wait only until the socket opens.
abbrev pub IsQueue : Connection → Type 0
IsQueue c = c.is_open ≡ true → c.pending ≡ []

-- A step that takes no keys loses none.
pub record Passes (c d : Connection) : Type 0 where
  pub same_total : total d ≡ total c
  pub same_esc : d.esc ≡ c.esc
  pub same_quit : d.quit ≡ c.quit
  pub still_queue : IsQueue c → IsQueue d

pub Passes-refl : (c : Connection) → Passes c c
Passes-refl c = record {
  same_total = refl;
  same_esc = refl;
  same_quit = refl;
  still_queue = λ q. q;
}

pub Passes-trans : (c d e : Connection) → Passes c d → Passes d e → Passes c e
Passes-trans c d e p q = record {
  same_total = q.same_total ∙ p.same_total;
  same_esc = q.same_esc ∙ p.same_esc;
  same_quit = q.same_quit ∙ p.same_quit;
  still_queue = λ i. q.still_queue (p.still_queue i);
}

pub Passes-if :
    (b : Bool) (c x y : Connection) → Passes c x → Passes c y → Passes c (if b then x else y)
Passes-if true c x y p q = p
Passes-if false c x y p q = q

module _ (a : Around) (is_ready : a.ready ≡ true) where
  pub send-ready :
      (m : Message) (c : Connection) → send a m c ≡ record c { sent = c.sent ++ m ∷ [] }
  unfolding send
  send-ready m c = rw is_ready refl

  -- what is left alone when the size is sent
  pub record Resized (c d : Connection) : Type 0 where
    pub same_keys : binaries d.sent ≡ binaries c.sent
    pub pending : d.pending ≡ c.pending
    pub esc : d.esc ≡ c.esc
    pub quit : d.quit ≡ c.quit
    pub is_open : d.is_open ≡ c.is_open

  Resized-if :
      (b : Bool) (c x y : Connection) → Resized c x → Resized c y → Resized c (if b then x else y)
  Resized-if true c x y p q = p
  Resized-if false c x y p q = q

  Resized-refl : (c : Connection) → Resized c c
  Resized-refl c = record {
    same_keys = refl;
    pending = refl;
    esc = refl;
    quit = refl;
    is_open = refl;
  }

  size-Resized :
      (cols rows : ℕ) (c : Connection)
      → Resized c (send a (size_message cols rows) (record c { cols = cols; rows = rows }))
  size-Resized cols rows c =
      subst (Resized c) (sym (send-ready _ (record c { cols = cols; rows = rows }))) (record {
        same_keys = binaries-append c.sent _ ∙ append-nil (binaries c.sent);
        pending = refl;
        esc = refl;
        quit = refl;
        is_open = refl;
      })

  resize-Resized : (c : Connection) → Resized c (resize a c)
  unfolding resize
  resize-Resized c =
      elim a.size
        as (λ (o : Option (ℕ × ℕ)). Resized c (elim o as (λ _. Connection) [
          | none ↦ c
          | some (cols, rows) ↦
              if ltb 0 cols && ltb 0 rows && not (cols == c.cols && rows == c.rows)
              then send a (size_message cols rows) (record c { cols = cols; rows = rows })
              else c
        ])) [
          | none ↦ Resized-refl c
          | some (cols, rows) ↦ Resized-if _ c _ c (size-Resized cols rows c) (Resized-refl c)
        ]

  pub resize-Passes : (c : Connection) → Passes c (resize a c)
  resize-Passes c =
      let r = resize-Resized c in
      record {
        same_total = ap₂ (λ x y. x ++ concat y) r.same_keys r.pending;
        same_esc = r.esc;
        same_quit = r.quit;
        still_queue = λ q o. r.pending ∙ q (sym r.is_open ∙ o);
      }

  send_all-sent :
      (bs : List Bytes) (c : Connection)
      → send_all a bs c ≡ record c { sent = c.sent ++ map binary bs }
  unfolding send_all
  send_all-sent [] c = ap (λ s. record c { sent = s }) (sym (append-nil c.sent))
  send_all-sent (b ∷ bs) c =
      ap (send_all a bs) (send-ready (binary b) c)
      ∙ (send_all-sent bs (record c { sent = c.sent ++ binary b ∷ [] })
          ∙ ap (λ s. record c { sent = s }) (append_assoc c.sent (binary b ∷ []) (map binary bs)))

  binaries-map : (bs : List Bytes) → binaries (map binary bs) ≡ concat bs
  binaries-map [] = refl
  binaries-map (b ∷ bs) = ap (λ s. b ++ s) (binaries-map bs)

  pub opened-Passes : (l : Library) (c : Connection) → Passes c (take_event l a opened c)
  unfolding take_event
  opened-Passes l c =
      let d = resize a (record c { is_open = true }) in
      let r = resize-Resized (record c { is_open = true }) in
      subst (λ (x : Connection). Passes c (record x { pending = [] }))
        (sym (send_all-sent c.pending d))
        (record {
          same_total =
              append-nil (binaries (d.sent ++ map binary c.pending))
              ∙ (binaries-append d.sent (map binary c.pending)
                  ∙ ap₂ ◌++◌ r.same_keys (binaries-map c.pending));
          same_esc = r.esc;
          same_quit = r.quit;
          still_queue = λ q o. refl;
        })
