-- ===== src/Pty/Connection/Typing.antt =====
-- The keys that a read brings.
use websh.Base.{
  ◌≡◌, refl, sym, ap, ap₂, subst, ◌∙◌, Bool, true, false, [], ◌∷◌, ◌++◌, if◌then◌else◌, Bytes,
  arith, append_assoc, append-nil,
}
use websh.Pty.Escape.{filter}
use websh.Pty.Connection.{binary, Around, Connection, send, type_keys}
use websh.Pty.Connection.Passes.{
  binaries, concat, binaries-append, concat-append, total, IsQueue, send-ready,
}

-- The keys `k` are added to those that went out or wait.
pub record Types (c d : Connection) (k : Bytes) : Type 0 where
  pub more : total d ≡ total c ++ (filter c.esc k).out
  pub esc : d.esc ≡ (filter c.esc k).after
  pub quit : c.quit ≡ false → d.quit ≡ (filter c.esc k).quit
  pub ends : c.quit ≡ false → d.quit ≡ true → d.returned ≡ true
  pub still_queue : IsQueue d

module _ (a : Around) where
  -- the connection behind the keys that went out, before `quit` is looked at
  abbrev pub typed : Connection → Bytes → Connection
  typed c out = elim out as (λ _. Connection) [
    | [] ↦ c
    | x ∷ xs ↦
        if c.is_open
        then send a (binary (x ∷ xs)) c
        else record c { pending = c.pending ++ (x ∷ xs) ∷ [] }
  ]

  pub record Adds (c d : Connection) (out : Bytes) : Type 0 where
    pub more : total d ≡ total c ++ out
    pub esc : d.esc ≡ c.esc
    pub quit : d.quit ≡ c.quit
    pub still_queue : IsQueue d

  sent-Adds :
      (c : Connection) (b : Bytes)
      → IsQueue c
      → c.is_open ≡ true
      → Adds c (record c { sent = c.sent ++ binary b ∷ [] }) b
  sent-Adds c b q o = record {
    more =
        ap₂ (λ x y. x ++ concat y) (binaries-append c.sent (binary b ∷ [])) (q o)
        ∙ (append-nil (binaries c.sent ++ (b ++ []))
            ∙ (ap (λ y. binaries c.sent ++ y) (append-nil b)
                ∙ ap (λ y. y ++ b)
                    (sym (append-nil (binaries c.sent))
                      ∙ ap (λ y. binaries c.sent ++ concat y) (sym (q o)))));
    esc = refl;
    quit = refl;
    still_queue = q;
  }

  waits-Adds :
      (c : Connection) (b : Bytes)
      → c.is_open ≡ false
      → Adds c (record c { pending = c.pending ++ b ∷ [] }) b
  waits-Adds c b o = record {
    more =
        ap (λ y. binaries c.sent ++ y) (concat-append c.pending (b ∷ []))
        ∙ (ap (λ y. binaries c.sent ++ (concat c.pending ++ y)) (append-nil b)
            ∙ sym (append_assoc (binaries c.sent) (concat c.pending) b));
    esc = refl;
    quit = refl;
    still_queue = λ p. ground arith;
  }

  typed-Adds :
      (c : Connection) (out : Bytes)
      → IsQueue c
      → (c.is_open ≡ true → a.ready ≡ true)
      → Adds c (typed c out) out
  typed-Adds c [] q r = record {
    more = sym (append-nil (total c));
    esc = refl;
    quit = refl;
    still_queue = q;
  }
  typed-Adds c (x ∷ xs) q r = go c.is_open refl
    where
      go :
          (b : Bool)
          → c.is_open ≡ b
          → Adds c
              (if b
                then send a (binary (x ∷ xs)) c
                else record c { pending = c.pending ++ (x ∷ xs) ∷ [] })
              (x ∷ xs)
      go true o =
          subst (λ d. Adds c d (x ∷ xs)) (sym (send-ready a (r o) (binary (x ∷ xs)) c))
            (sent-Adds c (x ∷ xs) q o)
      go false o = waits-Adds c (x ∷ xs) o

  pub type_keys-Types :
      (k : Bytes) (c : Connection)
      → IsQueue c
      → (c.is_open ≡ true → a.ready ≡ true)
      → Types c (type_keys a k c) k
  unfolding type_keys
  type_keys-Types k c q r =
      go (filter c.esc k).quit
        (typed-Adds (record c { esc = (filter c.esc k).after }) (filter c.esc k).out q r) refl
    where
      go :
          (b : Bool)
          → (let c₁ = record c { esc = (filter c.esc k).after } in
              Adds c₁ (typed c₁ (filter c.esc k).out) (filter c.esc k).out)
          → b ≡ (filter c.esc k).quit
          → (let d = typed (record c { esc = (filter c.esc k).after }) (filter c.esc k).out in
              Types c (if b then record d { quit = true; returned = true } else d) k)
      go true p e = record {
        more = p.more;
        esc = p.esc;
        quit = λ _. e;
        ends = λ _ _. refl;
        still_queue = p.still_queue;
      }
      go false p e = record {
        more = p.more;
        esc = p.esc;
        quit = λ z. p.quit ∙ (z ∙ e);
        ends = λ z y. ground (arith, p.quit);
        still_queue = p.still_queue;
      }
