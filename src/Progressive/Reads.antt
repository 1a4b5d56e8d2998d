-- ===== src/Progressive/Reads.antt =====
-- The reads of a program through the filter, one after the other.
use websh.Base.{
  ℕ, ◌≡◌, refl, sym, ap, subst, ◌∙◌, Bool, true, false, ◌&&◌, Option, none, some, List, [], ◌∷◌,
  ◌++◌, if◌then◌else◌, Bytes, equal, equal_iff, take, drop, arith, append_assoc, append-nil,
  take-drop,
}
use websh.Base.Result.{Fault}
use websh.Progressive.Filter.{
  Library, take_input, Filter, Chunk, Reply, gives, wakes, fails, blocks, Reading, give, at_end,
  fill, read_filter,
}
use websh.Progressive.Conserved.{Removes, rest, Removes-append, take_input-Removes}

abbrev pub given : Reply → Bytes
given (gives b) = b
given wakes = []
given (fails e) = []
given blocks = []

abbrev pub flat : List Chunk → Bytes
flat [] = []
flat (c ∷ cs) = c.got ++ flat cs

-- What was read, what the program was given of it, and what the filter still has.
pub record Passed (read given_out : Bytes) (f : Filter) : Type 0 where
  pub flows : f.fault ≡ none → Removes read (given_out ++ f.out) f.held
  pub total :
      (o : Bytes) × (h : Bytes) × Removes read o h × (given_out ++ (f.out ++ f.held) ≡ o ++ h)

-- A read takes some of the source, and passes on.
record Reads (read given_out : Bytes) (cs : List Chunk) (r : Reading) : Type 0 where
  taken : Bytes
  of_source : flat cs ≡ taken ++ flat r.source
  passed : Passed (read ++ taken) (given_out ++ given r.reply) r.filter

-- A read that takes nothing of the source.
Reads-same :
    (read out : Bytes) (cs : List Chunk) (r : Reading)
    → r.source ≡ cs
    → Passed read (out ++ given r.reply) r.filter
    → Reads read out cs r
Reads-same read out cs r e p = record {
  taken = [];
  of_source = ap flat (sym e);
  passed = subst (λ x. Passed x (out ++ given r.reply) r.filter) (sym (append-nil read)) p;
}

give-Passed :
    (n : ℕ) (f : Filter) (read out : Bytes)
    → Passed read out f
    → Passed read (out ++ take n f.out) (record f { out = drop n f.out })
give-Passed n f read out p =
    let e : (out ++ take n f.out) ++ drop n f.out ≡ out ++ f.out =
      append_assoc out (take n f.out) (drop n f.out) ∙ ap (λ x. out ++ x) (take-drop n f.out) in
    record {
      flows = λ z. subst (λ x. Removes read x f.held) (sym e) (p.flows z);
      total = (
        p.total.0,
        p.total.1,
        p.total.2,
        sym (append_assoc (out ++ take n f.out) (drop n f.out) f.held)
            ∙ (ap (λ x. x ++ f.held) e ∙ (append_assoc out f.out f.held ∙ p.total.3)),
      );
    }

-- the state behind the end, with what was held given out
flush-Passed :
    (e : Fault) (f : Filter) (read out : Bytes)
    → f.out ≡ []
    → f.fault ≡ some e
    → Passed read out f
    → Passed read out (record f { closed = true; out = f.held; held = [] })
flush-Passed e f read out z w p = record {
  flows = λ q. cc;
  total = (
    p.total.0,
    p.total.1,
    p.total.2,
    ap (λ x. out ++ x) (append-nil f.held ∙ sym (ap (λ x. x ++ f.held) z)) ∙ p.total.3,
  );
}

fill-Passed :
    (l : Library) (c : Chunk) (f : Filter) (read out : Bytes)
    → f.out ≡ []
    → f.fault ≡ none
    → Passed read out f
    → Passed (read ++ c.got) out (fill l c f)
unfolding fill
fill-Passed l c f read out z w p =
    let t = take_input l f.channel (f.held ++ c.got) in
    let old : Removes read out f.held =
      subst (λ x. Removes read x f.held) (ap (λ x. out ++ x) z ∙ append-nil out) (p.flows w) in
    let now =
      Removes-append read c.got out f.held t.out t.held old
        (take_input-Removes l f.channel (f.held ++ c.got)) in
    record {
      flows = λ _. now;
      total = (out ++ t.out, t.held, now, sym (append_assoc out t.out t.held));
    }

at_end-Reads :
    (n : ℕ) (e : Fault) (f : Filter) (cs : List Chunk) (read out : Bytes)
    → f.out ≡ []
    → f.fault ≡ some e
    → Passed read out f
    → Reads read out cs (at_end n e f cs)
unfolding at_end
at_end-Reads n e f cs read out z w p = go f.held refl
  where
    go :
        (h : Bytes)
        → f.held ≡ h
        → Reads read out cs (elim h as (λ _. Reading) [
          | [] ↦ record { reply = fails e; filter = record f { closed = true }; source = cs }
          | _ ∷ _ ↦ give n (record f { closed = true; out = f.held; held = [] }) cs
        ])
    go [] k = Reads-same read out cs _ refl (
        subst (λ x. Passed read x (record f { closed = true })) (sym (append-nil out))
          (record { flows = p.flows; total = p.total }))
    go (x ∷ h) k = Reads-same read out cs _ refl (
        give-Passed n (record f { closed = true; out = f.held; held = [] }) read out
          (flush-Passed e f read out z w p))

-- a read of the source, and what comes behind it
then-Reads :
    (l : Library) (c : Chunk) (cs : List Chunk) (read out : Bytes) (r : Reading)
    → Reads (read ++ c.got) out cs r
    → Reads read out (c ∷ cs) r
then-Reads l c cs read out r p = record {
  taken = c.got ++ p.taken;
  of_source = ap (λ x. c.got ++ x) p.of_source ∙ sym (append_assoc c.got p.taken (flat r.source));
  passed =
      subst (λ x. Passed x (out ++ given r.reply) r.filter) (append_assoc read c.got p.taken)
        p.passed;
}

read_filter-Reads :
    (l : Library) (n : ℕ) (cs : List Chunk) (f : Filter) (read out : Bytes)
    → Passed read out f
    → Reads read out cs (read_filter l n f cs)
unfolding read_filter
read_filter-Reads l n [] f read out p = go f.out f.fault refl refl
  where
    go :
        (o : Bytes) (e : Option Fault)
        → f.out ≡ o
        → f.fault ≡ e
        → Reads read out [] (elim o as (λ _. Reading) [
          | _ ∷ _ ↦ give n f []
          | [] ↦ elim e [
            | some e ↦ at_end n e f []
            | none ↦ record { reply = blocks; filter = f; source = [] }
          ]
        ])
    go (x ∷ o) e z w = Reads-same read out [] _ refl (give-Passed n f read out p)
    go [] (some e) z w = at_end-Reads n e f [] read out z w p
    go [] none z w =
        Reads-same read out [] _ refl (subst (λ x. Passed read x f) (sym (append-nil out)) p)
read_filter-Reads l n (c ∷ cs) f read out p =
    go f.out f.fault _ (λ q. read_filter-Reads l n cs (fill l c f) (read ++ c.got) out q) refl refl
      refl
  where
    go :
        (o : Bytes) (e : Option Fault) (b : Bool)
        → (Passed (read ++ c.got) out (fill l c f)
            → Reads (read ++ c.got) out cs (read_filter l n (fill l c f) cs))
        → f.out ≡ o
        → f.fault ≡ e
        → (equal c.got [] && (elim c.err [ none ↦ true | some _ ↦ false ])) ≡ b
        → Reads read out (c ∷ cs) (elim o as (λ _. Reading) [
          | _ ∷ _ ↦ give n f (c ∷ cs)
          | [] ↦ elim e [
            | some e ↦ at_end n e f (c ∷ cs)
            | none ↦
                if b
                then record { reply = wakes; filter = f; source = cs }
                else read_filter l n (fill l c f) cs
          ]
        ])
    go (x ∷ o) e b ih z w k = Reads-same read out (c ∷ cs) _ refl (give-Passed n f read out p)
    go [] (some e) b ih z w k = at_end-Reads n e f (c ∷ cs) read out z w p
    go [] none true ih z w k =
        let no_bytes : c.got ≡ [] = (equal_iff c.got []).0 (ground (arith, k)) in
        record {
          taken = [];
          of_source = ap (λ x. x ++ flat cs) no_bytes;
          passed =
              subst (λ x. Passed x (out ++ []) f) (sym (append-nil read))
                (subst (λ x. Passed read x f) (sym (append-nil out)) p);
        }
    go [] none false ih z w k = then-Reads l c cs read out _ (ih (fill-Passed l c f read out z w p))

abbrev pub new_filter : Filter
new_filter = record { held = []; out = []; fault = none; channel = []; closed = false }

-- The filter of a source `cs` after reads into buffers of any sizes: what is left of the source,
-- and what the program was given.
pub data Session (l : Library) (cs : List Chunk) : List Chunk → Bytes → Filter → Type 0 where
  start : Session l cs cs [] new_filter
  next :
      (n : ℕ) (left : List Chunk) (out : Bytes) (f : Filter)
      → Session l cs left out f
      → Session l cs
          (read_filter l n f left).source
          (out ++ given (read_filter l n f left).reply)
          (read_filter l n f left).filter

-- A part of the source was read, and passed.
record Before (cs left : List Chunk) (out : Bytes) (f : Filter) : Type 0 where
  read : Bytes
  of_source : flat cs ≡ read ++ flat left
  passed : Passed read out f

Session-Before :
    (l : Library) (cs left : List Chunk) (out : Bytes) (f : Filter)
    → Session l cs left out f
    → Before cs left out f
Session-Before l cs left out f start = record {
  read = [];
  of_source = refl;
  passed = record { flows = λ _. rest [] []; total = ([], [], rest [] [], refl) };
}
Session-Before l cs left out f (next n left₀ out₀ f₀ s) =
    let p = Session-Before l cs left₀ out₀ f₀ s in
    let q = read_filter-Reads l n left₀ f₀ p.read out₀ p.passed in
    record {
      read = p.read ++ q.taken;
      of_source =
          p.of_source
          ∙ (ap (λ x. p.read ++ x) q.of_source ∙ sym (append_assoc p.read q.taken (flat left)));
      passed = q.passed;
    }

-- However the source cuts its bytes and however long the reads are: what the program was given,
-- with what the filter still has, is what was read of the source less whole events, each the head
-- of an event, a body in which no end begins, and the end behind that, which is the first. Nothing
-- else is lost, added or put in another order.
pub Session-Removes :
    (l : Library) (cs left : List Chunk) (out : Bytes) (f : Filter)
    → Session l cs left out f
    → (read : Bytes) × (o : Bytes) × (h : Bytes) × (flat cs ≡ read ++ flat left)
      × Removes read o h
      × (out ++ (f.out ++ f.held) ≡ o ++ h)
Session-Removes l cs left out f s =
    let p = Session-Before l cs left out f s in
    (p.read, p.passed.total.0, p.passed.total.1, p.of_source, p.passed.total.2, p.passed.total.3)
