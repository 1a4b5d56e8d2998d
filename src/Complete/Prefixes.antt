-- ===== src/Complete/Prefixes.antt =====
-- The candidates extend the word, so that the line editor never slices one out of range.
use websh.Base.{
  ℕ, ◌≤◌, ◌≡◌, refl, ap, subst, ◌∙◌, Bool, true, false, not, ◌&&◌, some, List, [], ◌∷◌, ◌++◌, ◌==◌,
  if◌then◌else◌, arith, Bytes, codes, has_prefix, index_byte, length,
}
use websh.Base.Result.{Result, ok, err}
use websh.Base.Paths.{split_path}
use websh.Editor.State.{Terminal, Editor}
use websh.Editor.Keys.Bounds.{IsValid}
use websh.Editor.Input.{input}
use websh.Editor.Input.Bounds.{Extends, Runs, input-Runs}
use websh.Applets.Lines.{less_text, insert_sorted, sort_stable}
use websh.Complete.{
  DirEntry, Shell, builtins, seen, add_name, add_names, path_programs, command_names,
  path_candidates, search_dir, path_names, complete, no_slash, candidates_read,
}

-- Texts that all begin with a word.
pub data Extended (word : Bytes) : List Bytes → Type 0 where
  no_texts : Extended word []
  one_text :
      {c : Bytes} {cs : List Bytes}
      → has_prefix c word ≡ true
      → Extended word cs
      → Extended word (c ∷ cs)

has_prefix-length : (s p : Bytes) → has_prefix s p ≡ true → length p ≤ length s
unfolding has_prefix
has_prefix-length s [] h = omega arith
has_prefix-length [] (d ∷ p) h = cc
has_prefix-length (c ∷ s) (d ∷ p) h = ground (arith, h, has_prefix-length s p)

has_prefix-behind : (d s p : Bytes) → has_prefix s p ≡ true → has_prefix (d ++ s) (d ++ p) ≡ true
unfolding has_prefix
has_prefix-behind [] s p h = h
has_prefix-behind (c ∷ d) s p h = ground (arith, has_prefix-behind d s p h)

has_prefix-more : (s t p : Bytes) → has_prefix s p ≡ true → has_prefix (s ++ t) p ≡ true
unfolding has_prefix
has_prefix-more s t [] h = ground arith
has_prefix-more [] t (d ∷ p) h = cc
has_prefix-more (c ∷ s) t (d ∷ p) h = ground (arith, h, has_prefix-more s t p)

split_path-append : (p : Bytes) → (split_path p).0 ++ (split_path p).1 ≡ p
unfolding split_path
split_path-append [] = refl
split_path-append (c ∷ s) = go (split_path s) (c == b'/') refl refl (split_path-append s)
  where
    go :
        (r : Bytes × Bytes) (b : Bool)
        → split_path s ≡ r
        → (c == b'/') ≡ b
        → (split_path s).0 ++ (split_path s).1 ≡ s
        → (split_path (c ∷ s)).0 ++ (split_path (c ∷ s)).1 ≡ c ∷ s
    go ([], t) true e f h = rw (split_path, e, f) refl
    go ([], t) false e f h = rw (split_path, e, f) refl
    go (d ∷ r, t) b e f h = rw (split_path, e) (ap (◌∷◌ c) h)

module _ (word : Bytes) where
  Extended-if :
      (b : Bool) (c : Bytes) {cs : List Bytes}
      → (b ≡ true → has_prefix c word ≡ true)
      → Extended word cs
      → Extended word (if b then c ∷ cs else cs)
  Extended-if true c f h = one_text (f refl) h
  Extended-if false c f h = h

  add_name-Extended :
      {names : List Bytes} (n : Bytes) → Extended word names → Extended word (add_name word names n)
  unfolding add_name
  add_name-Extended {names} n h =
      Extended-if (has_prefix n word && not (seen names n)) n (λ e. ground (arith, e)) h

  add_names-Extended :
      (ns : List Bytes) {names : List Bytes}
      → Extended word names
      → Extended word (add_names word names ns)
  unfolding add_names
  add_names-Extended [] h = h
  add_names-Extended (n ∷ ns) h = add_names-Extended ns (add_name-Extended n h)

  insert_sorted-Extended :
      (x : Bytes) {ys : List Bytes}
      → has_prefix x word ≡ true
      → Extended word ys
      → Extended word (insert_sorted less_text x ys)
  unfolding insert_sorted
  insert_sorted-Extended x h no_texts = one_text h no_texts
  insert_sorted-Extended x h (one_text {c = y} {cs = ys} k r) =
      go (less_text y x) (insert_sorted-Extended x h r)
    where
      go :
          (b : Bool)
          → Extended word (insert_sorted less_text x ys)
          → Extended word (if b then y ∷ insert_sorted less_text x ys else x ∷ y ∷ ys)
      go true later = one_text k later
      go false later = one_text h (one_text k r)

  sort_stable-Extended :
      {cs : List Bytes} → Extended word cs → Extended word (sort_stable less_text cs)
  unfolding sort_stable
  sort_stable-Extended no_texts = no_texts
  sort_stable-Extended (one_text {c} h r) = insert_sorted-Extended c h (sort_stable-Extended r)

  path_candidates-Extended :
      (dir base : Bytes) (es : List DirEntry)
      → dir ++ base ≡ word
      → Extended word (path_candidates dir base es)
  unfolding path_candidates
  path_candidates-Extended dir base [] h = no_texts
  path_candidates-Extended dir base (e ∷ es) h =
      Extended-if (has_prefix e.name base) _
        (λ k. named e.is_dir (
          subst (λ w. has_prefix (dir ++ e.name) w ≡ true) h (has_prefix-behind dir e.name base k)))
        (path_candidates-Extended dir base es h)
    where
      named :
          (b : Bool)
          → has_prefix (dir ++ e.name) word ≡ true
          → has_prefix (if b then (dir ++ e.name) ++ codes "/" else dir ++ e.name) word ≡ true
      named true k = has_prefix-more (dir ++ e.name) (codes "/") word k
      named false k = k

module _ (s : Shell) (word : Bytes) where
  command_names-Extended : Extended word (command_names s word)
  unfolding command_names
  command_names-Extended = go s.native
    where
      own : Extended word (add_names word (add_names word [] s.applet_names) builtins)
      own = add_names-Extended word builtins (add_names-Extended word s.applet_names no_texts)

      go :
          (b : Bool)
          → Extended word (
              if b
              then add_names word
                  (add_names word (add_names word [] s.applet_names) builtins)
                  (path_programs s word)
              else add_names word (add_names word [] s.applet_names) builtins)
      go true = add_names-Extended word (path_programs s word) own
      go false = own

  path_names-Extended : Extended word (path_names s word)
  unfolding path_names
  path_names-Extended = go (s.read_dir (search_dir s (split_path word).0))
    where
      go :
          (r : Result (List DirEntry))
          → Extended word (candidates_read (split_path word).0 (split_path word).1 r)
      go (err f) = no_texts
      go (ok es) =
          path_candidates-Extended word (split_path word).0 (split_path word).1 es
            (split_path-append word)

  -- Every candidate for a word begins with the word.
  pub complete-Extended : (first : Bool) → Extended word (complete s word first)
  unfolding complete
  complete-Extended first = go (first && no_slash (index_byte b'/' word))
    where
      go :
          (b : Bool)
          → Extended word
              (sort_stable less_text (if b then command_names s word else path_names s word))
      go true = sort_stable-Extended word command_names-Extended
      go false = sort_stable-Extended word path_names-Extended

Extended-one : {word c : Bytes} → Extended word (c ∷ []) → length word ≤ length c
Extended-one {word} {c} (one_text h r) = has_prefix-length c word h

complete-Extends : (s : Shell) (t : Terminal) → t.complete ≡ some (complete s) → Extends t
unfolding Extends
complete-Extends s t h candidates k word first c e =
    let same : complete s ≡ candidates = cc in
    let one : complete s word first ≡ c ∷ [] = ap (λ f. f word first) same ∙ e in
    Extended-one (subst (Extended word) one (complete-Extended s word first))

-- In a line editor whose completion is that of the shell, whatever its files, its applets and its
-- PATH, and whatever runes the terminal sends to a valid editor, no candidate is sliced out of range,
-- and the editor that results is valid.
pub complete-Runs :
    (s : Shell) (t : Terminal)
    → t.complete ≡ some (complete s)
    → (rs : List ℕ) (e : Editor) → IsValid e
    → Runs (input t rs e)
complete-Runs s t h = input-Runs t (complete-Extends s t h)
