-- ===== src/Applets/Files/Kept.antt =====
-- Without `-r`, `rm` removes no directory.
use websh.Base.{
  ◌≡◌, refl, Bool, true, false, Option, none, some, List, [], ◌∷◌, Bytes, codes, one_of,
}
use websh.Base.Result.{Fault, Result, ok, err}
use websh.Applets.{parse_flags, resolve_arg}
use websh.Applets.Files.{
  Info, Fs, Progress, goes_on, stops, step, each_arg, checked, forced, rm_found, rm_arg, rm_args,
  run_rm,
}

module _ (fs : Fs) (P : fs.State → Type 0)
    (keeps : (s : fs.State) (path : Bytes) (i : Info)
      → fs.stat s path ≡ ok i
      → i.is_dir ≡ false
      → P s
      → P (fs.remove_all s path).0) where
  checked-Kept : (name : Bytes) (r : fs.State × Option Fault) → P r.0 → P (checked fs name r).0
  checked-Kept name (s, none) p = p
  checked-Kept name (s, some e) p = p

  forced-Kept :
      (b : Bool) (name : Bytes) (r : fs.State × Option Fault) → P r.0 → P (forced fs b name r).0
  forced-Kept true name r p = p
  forced-Kept false name r p = checked-Kept name r p

  rm_found-Kept :
      (flags : Bytes) (s : fs.State) (a path : Bytes) (o : Result Info)
      → one_of flags b'r' ≡ false
      → fs.stat s path ≡ o
      → P s
      → P (rm_found fs flags s a path o).0
  rm_found-Kept flags s a path (err e) h k p = p
  rm_found-Kept flags s a path (ok i) h k p = go i.is_dir refl
    where
      go : (b : Bool) → i.is_dir ≡ b → P (rm_found fs flags s a path (ok i)).0
      go true e = rw (h, e) p
      go false e = rw e (
          forced-Kept (one_of flags b'f') (codes "rm") (fs.remove_all s path)
            (keeps s path i k e p))

  each_arg-Kept :
      (f : fs.State → Bytes → fs.State × Progress)
      → ((s : fs.State) (a : Bytes) → P s → P (f s a).0)
      → (s : fs.State) (args : List Bytes) → P s
      → P (each_arg fs f s args).0
  unfolding each_arg
  each_arg-Kept f h s [] p = p
  each_arg-Kept f h s (a ∷ rest) p = go (f s a) (h s a p) (λ t q. each_arg-Kept f h t rest q)
    where
      go :
          (r : fs.State × Progress)
          → P r.0
          → ((t : fs.State) → P t → P (each_arg fs f t rest).0)
          → P (step fs r (λ t. each_arg fs f t rest)).0
      go (s, goes_on) p later = later s p
      go (s, stops d) p later = p

  -- Without `-r` among its flags, `rm` keeps whatever the removal of a path that is no directory
  -- keeps, whatever its arguments and however it ends.
  pub run_rm-Kept :
      (dir : Bytes) (s : fs.State) (args : List Bytes)
      → one_of (parse_flags args).0 b'r' ≡ false
      → P s
      → P (run_rm fs dir s args).0
  unfolding rm_arg run_rm
  run_rm-Kept dir s args h p = go (parse_flags args).1
    where
      go : (rest : List Bytes) → P (rm_args fs dir s (parse_flags args).0 rest).0
      go [] = p
      go (a ∷ rest) =
          each_arg-Kept (rm_arg fs dir (parse_flags args).0)
            (λ t b. rm_found-Kept (parse_flags args).0 t b (resolve_arg dir b) _ h refl) s
            (a ∷ rest) p
