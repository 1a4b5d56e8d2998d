-- ===== src/Applets/Sorted.antt =====
-- `sort` gives the same lines in order.
use mathlib.Core.List.{Perm, IsChain}
use mathlib.Core.List.Perm
use websh.Base.{◌≡◌, refl, sym, subst, Bool, true, false, List, [], ◌∷◌, ◌++◌, append-nil, Bytes}
use websh.Base.Paths.{reverse_onto}
use websh.Applets.Lines.{insert_sorted, sort_stable, sort_less, sort_lines}
use websh.Applets.Order.{InOrder, sort_less-asym, sort_less-LineLe}

module _ (less : Bytes → Bytes → Bool) where
  -- The second line is not below the first, and the other way round.
  abbrev Rising : Bytes → Bytes → Type 0
  Rising a b = less b a ≡ false

  abbrev Falling : Bytes → Bytes → Type 0
  Falling a b = less a b ≡ false

  insert_sorted-perm : (x : Bytes) (ys : List Bytes) → Perm (insert_sorted less x ys) (x ∷ ys)
  unfolding insert_sorted
  insert_sorted-perm x [] = Perm.refl _
  insert_sorted-perm x (y ∷ ys) = go (less y x) refl (insert_sorted-perm x ys)
    where
      go :
          (b : Bool)
          → less y x ≡ b
          → Perm (insert_sorted less x ys) (x ∷ ys)
          → Perm (insert_sorted less x (y ∷ ys)) (x ∷ y ∷ ys)
      go true e h = rw (insert_sorted, e) (Perm.trans (Perm.cons y h) (Perm.swap x y ys))
      go false e h = rw (insert_sorted, e) (Perm.refl _)

  sort_stable-perm : (xs : List Bytes) → Perm (sort_stable less xs) xs
  unfolding sort_stable
  sort_stable-perm [] = Perm.refl []
  sort_stable-perm (x ∷ xs) =
      Perm.trans (insert_sorted-perm x (sort_stable less xs)) (Perm.cons x (sort_stable-perm xs))

  perm_middle : (x : Bytes) (xs out : List Bytes) → Perm (xs ++ x ∷ out) (x ∷ xs ++ out)
  perm_middle x [] out = Perm.refl _
  perm_middle x (y ∷ ys) out =
      Perm.trans (Perm.cons y (perm_middle x ys out)) (Perm.swap x y (ys ++ out))

  reverse_onto-perm : (xs out : List Bytes) → Perm (reverse_onto xs out) (xs ++ out)
  unfolding reverse_onto
  reverse_onto-perm [] out = Perm.refl out
  reverse_onto-perm (x ∷ xs) out =
      Perm.trans (reverse_onto-perm xs (x ∷ out)) (perm_middle x xs out)

  module _ (asym : (s t : Bytes) → less s t ≡ true → less t s ≡ false) where
    insert_behind :
        (y x : Bytes) (ys : List Bytes)
        → Rising y x
        → IsChain Rising (y ∷ ys)
        → IsChain Rising (y ∷ insert_sorted less x ys)
    unfolding insert_sorted
    insert_behind y x [] r h = IsChain.cons-cons r (IsChain.singleton x)
    insert_behind y x (z ∷ zs) r (IsChain.cons-cons k h) =
        go (less z x) refl (λ q. insert_behind z x zs q h)
      where
        go :
            (b : Bool)
            → less z x ≡ b
            → (Rising z x → IsChain Rising (z ∷ insert_sorted less x zs))
            → IsChain Rising (y ∷ insert_sorted less x (z ∷ zs))
        go true e later = rw (insert_sorted, e) (IsChain.cons-cons k (later (asym z x e)))
        go false e later = rw (insert_sorted, e) (IsChain.cons-cons r (IsChain.cons-cons e h))

    insert_sorted-IsChain :
        (x : Bytes) (ys : List Bytes) → IsChain Rising ys → IsChain Rising (insert_sorted less x ys)
    unfolding insert_sorted
    insert_sorted-IsChain x [] h = IsChain.singleton x
    insert_sorted-IsChain x (y ∷ ys) h = go (less y x) refl
      where
        go : (b : Bool) → less y x ≡ b → IsChain Rising (insert_sorted less x (y ∷ ys))
        go true e = rw (insert_sorted, e) (insert_behind y x ys (asym y x e) h)
        go false e = rw (insert_sorted, e) (IsChain.cons-cons e h)

    sort_stable-IsChain : (xs : List Bytes) → IsChain Rising (sort_stable less xs)
    unfolding sort_stable
    sort_stable-IsChain [] = IsChain.nil
    sort_stable-IsChain (x ∷ xs) =
        insert_sorted-IsChain x (sort_stable less xs) (sort_stable-IsChain xs)

  reverse_behind :
      (x : Bytes) (xs : List Bytes) {out : List Bytes}
      → IsChain Rising (x ∷ xs)
      → IsChain Falling (x ∷ out)
      → IsChain Falling (reverse_onto xs (x ∷ out))
  unfolding reverse_onto
  reverse_behind x [] h k = k
  reverse_behind x (z ∷ zs) (IsChain.cons-cons r h) k =
      reverse_behind z zs h (IsChain.cons-cons r k)

  reverse_onto-IsChain :
      (xs : List Bytes) → IsChain Rising xs → IsChain Falling (reverse_onto xs [])
  unfolding reverse_onto
  reverse_onto-IsChain [] h = IsChain.nil
  reverse_onto-IsChain (x ∷ xs) h = reverse_behind x xs h (IsChain.singleton x)

IsChain-into :
    {R S : Bytes → Bytes → Type 0} (f : (s t : Bytes) → R s t → S s t) {ls : List Bytes}
    → IsChain R ls
    → IsChain S ls
IsChain-into f IsChain.nil = IsChain.nil
IsChain-into f (IsChain.singleton x) = IsChain.singleton x
IsChain-into f (IsChain.cons-cons r h) = IsChain.cons-cons (f _ _ r) (IsChain-into f h)

-- `sort` gives the same lines, each as often as before. Each of them stands before the next or is
-- the same in the order of the bytes; with `-n` its number is not above the number of the next, a
-- line without a number having 0; with `-r` these orders are turned round.
pub sort_lines-InOrder :
    (trim : Bytes → Bytes) (numeric reversed : Bool) (ls : List Bytes)
    → Perm (sort_lines trim numeric reversed ls) ls
      × IsChain (InOrder trim numeric reversed) (sort_lines trim numeric reversed ls)
unfolding InOrder sort_lines
sort_lines-InOrder trim numeric true ls =
    let less = sort_less trim numeric in
    let sorted = sort_stable less ls in
    (
      Perm.trans (reverse_onto-perm less sorted [])
          (subst (λ xs. Perm xs ls) (sym (append-nil sorted)) (sort_stable-perm less ls)),
      IsChain-into (λ s t. sort_less-LineLe trim numeric t s)
          (reverse_onto-IsChain less sorted
            (sort_stable-IsChain less (sort_less-asym trim numeric) ls)),
    )
sort_lines-InOrder trim numeric false ls =
    let less = sort_less trim numeric in
    (
      sort_stable-perm less ls,
      IsChain-into (sort_less-LineLe trim numeric)
          (sort_stable-IsChain less (sort_less-asym trim numeric) ls),
    )
