-- ===== src/Pty/Escape/Chunks.antt =====
-- How the keys are cut into reads does not matter, and what a text has to be to come through.
use websh.Base.{
  ℕ, ◌≡◌, refl, sym, ap, subst, ==→eq, Bool, true, false, not, ◌&&◌, [], ◌∷◌, ◌++◌, ◌==◌,
  if◌then◌else◌, Bytes, arith, Bool-cases, inl, inr, append_assoc,
}
use websh.Pty.Escape.{Escape, fresh, Key, sends, quits, plain_key, key, Filtered, filter}

-- Two reads, one after the other.
abbrev pub then_filter : Filtered → Bytes → Filtered
then_filter r s =
    if r.quit then r else (let q = filter r.after s in record q { out = r.out ++ q.out })

-- Keys that come in one read are filtered as when they come in two, cut anywhere.
pub filter-append : (e : Escape) (a b : Bytes) → filter e (a ++ b) ≡ then_filter (filter e a) b
unfolding filter
filter-append e [] b = refl
filter-append e (c ∷ a) b = go (key e c) (λ e'. filter-append e' a b)
  where
    go :
        (k : Key)
        → ((e' : Escape) → filter e' (a ++ b) ≡ then_filter (filter e' a) b)
        → elim k as (λ _. Filtered) [
          | quits ↦ record { out = []; quit = true; after = record e { tilde = false } }
          | sends s e' ↦ let r = filter e' (a ++ b) in record r { out = s ++ r.out }
        ]
          ≡ then_filter
              (elim k as (λ _. Filtered) [
                | quits ↦ record { out = []; quit = true; after = record e { tilde = false } }
                | sends s e' ↦ let r = filter e' a in record r { out = s ++ r.out }
              ])
              b
    go quits ih = refl
    go (sends s e') ih =
        ground (arith, ih e', append_assoc s (filter e' a).out (filter (filter e' a).after b).out)

-- A text with each `~` at the start of a line doubled; the flag is that a line has begun.
unfoldable pub doubled : Bool → Bytes → Bytes
doubled mid [] = []
doubled mid (c ∷ s) =
    let rest = doubled (not (c == b'\r') && not (c == b'\n')) s in
    if not mid && c == b'~' then b'~' ∷ b'~' ∷ rest else c ∷ rest

-- The text `s` comes through, when it is sent so.
abbrev ComesThrough : Bool → Bytes → Type 0
ComesThrough mid s =
    let r = filter (record { mid_line = mid; tilde = false }) (doubled mid s) in
    (r.out ≡ s) × (r.quit ≡ false)

key-fresh :
    (c : ℕ)
    → (c == b'~') ≡ false
    → key fresh c
      ≡ sends (c ∷ []) (record { mid_line = not (c == b'\r') && not (c == b'\n'); tilde = false })
unfolding key
key-fresh c k = rw (key, plain_key, k) refl

doubled-fresh :
    (c : ℕ) (s : Bytes)
    → (c == b'~') ≡ false
    → doubled false (c ∷ s) ≡ c ∷ doubled (not (c == b'\r') && not (c == b'\n')) s
unfolding doubled
doubled-fresh c s k = rw (doubled, k) refl

filter-sends :
    (e e' : Escape) (c : ℕ) (b s : Bytes)
    → key e c ≡ sends b e'
    → filter e (c ∷ s) ≡ record (filter e' s) { out = b ++ (filter e' s).out }
unfolding filter
filter-sends e e' c b s k = rw (filter, k) refl

-- Every text can be sent: with each `~` at the start of a line doubled, it comes through as it is,
-- and does not end the session.
pub filter-doubled :
    (mid : Bool) (s : Bytes)
    → let r = filter (record { mid_line = mid; tilde = false }) (doubled mid s) in
      (r.out ≡ s) × (r.quit ≡ false)
unfolding filter doubled
filter-doubled mid [] = (refl, refl)
filter-doubled true (c ∷ s) =
    let ih = filter-doubled (not (c == b'\r') && not (c == b'\n')) s in (ap (◌∷◌ c) ih.0, ih.1)
filter-doubled false (c ∷ s) =
    let ih = filter-doubled (not (c == b'\r') && not (c == b'\n')) s in
    let doubling = filter-doubled true s in
    elim (Bool-cases (c == b'~')) [
      | inl k ↦
          subst (λ d. ComesThrough false (d ∷ s)) (sym (==→eq c b'~' k))
            (ap (◌∷◌ b'~') doubling.0, doubling.1)
      | inr k ↦
          subst (λ t. ((filter fresh t).out ≡ c ∷ s) × ((filter fresh t).quit ≡ false))
            (sym (doubled-fresh c s k))
            (subst (λ (r : Filtered). (r.out ≡ c ∷ s) × (r.quit ≡ false))
              (sym (filter-sends fresh _ c (c ∷ []) _ (key-fresh c k))) (ap (◌∷◌ c) ih.0, ih.1))
    ]
