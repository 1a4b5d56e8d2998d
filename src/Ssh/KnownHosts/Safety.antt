-- ===== src/Ssh/KnownHosts/Safety.antt =====
-- Which keys are accepted.
use websh.Base.{
  ℕ, ◌≡◌, ◌↔◌, ◌⊎◌, inl, inr, refl, ◌&&◌, Bool, true, false, Option, none, some, List, [], ◌∷◌,
  Bytes, arith, Bool-cases,
}
use websh.Base.Result.{Result, ok, err, plain}
use websh.Ssh.Library.{Key, Library}
use websh.Ssh.Tty.{Tty, yes_no}
use websh.Ssh.KnownHosts.{
  Entry, Checker, same_key, lookup, find_revoked, find_known, notify, Notice, unknown_host,
  changed_key, where_of, key_name, question, answered, ask, accept_host, check_known,
  host_key_check,
}

-- Every entry with this key is fit for use.
abbrev pub NotRevoked : Key → List Entry → Type 0
NotRevoked key [] = Unit
NotRevoked key (e ∷ es) = ((e.revoked && same_key e key) ≡ false) × NotRevoked key es

-- An entry that is not revoked has this key.
abbrev pub Known : Key → List Entry → Type 0
Known key [] = ⊥
Known key (e ∷ es) = ((e.revoked ≡ false) × (same_key e key ≡ true)) ⊎ Known key es

-- Every entry is revoked.
abbrev pub Unknown : List Entry → Type 0
Unknown [] = Unit
Unknown (e ∷ es) = (e.revoked ≡ true) × Unknown es

module _ (key : Key) where
  find_revoked-none : (es : List Entry) → find_revoked key es ≡ none → NotRevoked key es
  unfolding find_revoked
  find_revoked-none [] h = tt
  find_revoked-none (e ∷ es) h = ground (arith, h, find_revoked-none es)

  find_known-none : (es : List Entry) → find_known key es ≡ none → Known key es
  unfolding find_known
  find_known-none [] h = ground (arith, h)
  find_known-none (e ∷ es) h = elim (Bool-cases e.revoked) [
    | inl r ↦ inr (find_known-none es (ground (arith, h, r)))
    | inr r ↦ elim (Bool-cases (same_key e key)) [
      | inl k ↦ inl (r, k)
      | inr k ↦ inr (find_known-none es (ground (arith, h, r, k)))
    ]
  ]

  find_known-nil : (es : List Entry) → find_known key es ≡ some [] → Unknown es
  unfolding find_known
  find_known-nil [] h = tt
  find_known-nil (e ∷ es) h = ground (arith, h, find_known-nil es)

  NotRevoked-find_revoked : (es : List Entry) → NotRevoked key es → find_revoked key es ≡ none
  unfolding find_revoked
  NotRevoked-find_revoked [] h = refl
  NotRevoked-find_revoked (e ∷ es) h = ground (arith, h, NotRevoked-find_revoked es)

  Known-find_known : (es : List Entry) → Known key es → find_known key es ≡ none
  unfolding find_known
  Known-find_known [] k = absurd k
  Known-find_known (e ∷ es) (inl k) = ground (arith, k)
  Known-find_known (e ∷ es) (inr k) = ground (arith, Known-find_known es k)

  Unknown-find_known : (es : List Entry) → Unknown es → find_known key es ≡ some []
  unfolding find_known
  Unknown-find_known [] h = refl
  Unknown-find_known (e ∷ es) h = ground (arith, h, Unknown-find_known es)

module _ (fuel : ℕ) (l : Library) (display hostport : Bytes) (key : Key) where
  -- The user was asked, and said yes.
  abbrev SaidYes : Checker → Type 0
  SaidYes c = (tty : Tty) × (yes_no fuel l question c.tty ≡ some (ok true, tty))

  -- What a key has to be to be accepted.
  abbrev pub Fit : Checker → List Entry → Type 0
  Fit c es = NotRevoked key es × (Known key es ⊎ (Unknown es × SaidYes c))

  ask-yes :
      (host : Bytes) (c c' : Checker) → ask fuel l display host key c ≡ some (c', ok tt) → SaidYes c
  unfolding ask answered
  ask-yes host c c' h = go (yes_no fuel l question c.tty) refl
    where
      go : (o : Option (Result Bool × Tty)) → yes_no fuel l question c.tty ≡ o → SaidYes c
      go none e = absurd (ground (arith, h, e))
      go (some (err f, tty)) e = absurd (ground (arith, h, e))
      go (some (ok false, tty)) e = absurd (ground (arith, h, e))
      go (some (ok true, tty)) e = (tty, e)

  check_known-Fit :
      (host : Bytes) (c c' : Checker) (es : List Entry)
      → check_known fuel l display host key c (find_known key es) ≡ some (c', ok tt)
      → Known key es ⊎ (Unknown es × SaidYes c)
  check_known-Fit host c c' es h = go (find_known key es) refl
    where
      go :
          (o : Option (List Entry))
          → find_known key es ≡ o
          → Known key es ⊎ (Unknown es × SaidYes c)
      go none e = inl (find_known-none key es e)
      go (some []) e =
          inr (find_known-nil key es e, ask-yes host c c' (unfold check_known in rw e at h))
      go (some (x ∷ xs)) e = absurd (unfold check_known in ground (arith, h, e))

  -- The check ends with the key accepted.
  abbrev pub Accepts : Checker → Type 0
  Accepts c = (c' : Checker) × (host_key_check fuel l display hostport key c ≡ some (c', ok tt))

  Accepts-Fit : (c : Checker) → Accepts c → Fit c (lookup l c.entries (l.normalize hostport))
  unfolding host_key_check
  Accepts-Fit c (c', h) = go (find_revoked key (lookup l c.entries (l.normalize hostport))) refl
    where
      go :
          (o : Option ℕ)
          → find_revoked key (lookup l c.entries (l.normalize hostport)) ≡ o
          → Fit c (lookup l c.entries (l.normalize hostport))
      go none e = (
        find_revoked-none key (lookup l c.entries (l.normalize hostport)) e,
        check_known-Fit (l.normalize hostport) c c' (lookup l c.entries (l.normalize hostport))
            (rw (host_key_check, e) at h),
      )
      go (some n) e = absurd (ground (arith, h, e))

  Fit-Accepts : (c : Checker) → Fit c (lookup l c.entries (l.normalize hostport)) → Accepts c
  unfolding host_key_check check_known ask answered
  Fit-Accepts c (n, inl k) =
      (c, rw (host_key_check, NotRevoked-find_revoked key _ n, Known-find_known key _ k) refl)
  Fit-Accepts c (n, inr (u, (tty, y))) =
      let asked = notify (unknown_host display (key_name l key) key) c in
      (
        accept_host l (l.normalize hostport) key (record asked { tty = tty }),
        rw (host_key_check, NotRevoked-find_revoked key _ n, Unknown-find_known key _ u, ask, y)
            refl,
      )

  -- A host's key is accepted exactly when no entry for the host revokes it, and either an entry
  -- for the host that is not revoked has it, or no such entry is there and the user, being asked,
  -- says yes within the fuel for questions.
  pub host_key_check_iff :
      (c : Checker) → Accepts c ↔ Fit c (lookup l c.entries (l.normalize hostport))
  host_key_check_iff c = (Accepts-Fit c, Fit-Accepts c)

  -- The host has entries that are not revoked, and none of all its entries has the key.
  abbrev pub Changed : List Entry → Type 0
  Changed es = NotRevoked key es × (Known key es → ⊥) × (Unknown es → ⊥)

  -- A host that has an entry that is not revoked, and none with the key, is refused without a
  -- question: nothing is read from the terminal or stored, one notice is printed, and the entries
  -- stay.
  pub host_key_check-Changed :
      (c : Checker)
      → Changed (lookup l c.entries (l.normalize hostport))
      → (n : Notice) × (host_key_check fuel l display hostport key c
          ≡ some (notify n c, err (plain "host key verification failed")))
  unfolding host_key_check check_known
  host_key_check-Changed c (n, k, u) =
      go (find_known key (lookup l c.entries (l.normalize hostport))) refl
    where
      go :
          (o : Option (List Entry))
          → find_known key (lookup l c.entries (l.normalize hostport)) ≡ o
          → (n : Notice) × (host_key_check fuel l display hostport key c
              ≡ some (notify n c, err (plain "host key verification failed")))
      go none e = absurd (k (find_known-none key _ e))
      go (some []) e = absurd (u (find_known-nil key _ e))
      go (some (x ∷ xs)) e = (
        changed_key (key_name l key) key (where_of l (x ∷ xs)) display,
        rw (host_key_check, NotRevoked-find_revoked key _ n, e) refl,
      )
