-- ===== src/Base/Paths.antt =====
-- Go's `path/filepath` on slashes, and `strings.Join`.
use websh.Base.{ℕ, Bool, false, List, [], ◌∷◌, ◌++◌, ◌==◌, if◌then◌else◌, Bytes, codes, equal}

-- `strings.Split(s, sep)` for one byte: the first part and the others
unfoldable pub split_byte : ℕ → Bytes → Bytes × List Bytes
split_byte b [] = ([], [])
split_byte b (c ∷ s) =
    let later = split_byte b s in if c == b then ([], later.0 ∷ later.1) else (c ∷ later.0, later.1)

-- `strings.Join(parts, sep)`
unfoldable pub join_with : Bytes → List Bytes → Bytes
join_with sep [] = []
join_with sep (p ∷ []) = p
join_with sep (p ∷ q ∷ ps) = p ++ (sep ++ join_with sep (q ∷ ps))

-- `filepath.IsAbs(p)`
unfoldable pub is_abs : Bytes → Bool
is_abs [] = false
is_abs (c ∷ p) = c == b'/'

-- the last element of a list behind `[]`, and the others, kept from the last to the first
abbrev go_up : Bool → List Bytes → List Bytes
go_up rooted [] = if rooted then [] else codes ".." ∷ []
go_up rooted (p ∷ ps) = if equal p (codes "..") then codes ".." ∷ p ∷ ps else ps

-- one element of a path, behind the ones kept
unfoldable pub clean_element : Bool → List Bytes → Bytes → List Bytes
unfolding equal
clean_element rooted kept p =
    if equal p []
    then kept
    else if equal p (codes ".")
    then kept
    else if equal p (codes "..")
    then go_up rooted kept
    else p ∷ kept

unfoldable pub clean_elements : Bool → List Bytes → List Bytes → List Bytes
unfolding clean_element
clean_elements rooted kept [] = kept
clean_elements rooted kept (p ∷ ps) = clean_elements rooted (clean_element rooted kept p) ps

unfoldable pub reverse_onto {ℓ} : {A : Type ℓ} → List A → List A → List A
reverse_onto [] out = out
reverse_onto (x ∷ xs) out = reverse_onto xs (x ∷ out)

abbrev dot_if_empty : Bytes → Bytes
dot_if_empty [] = codes "."
dot_if_empty (c ∷ s) = c ∷ s

-- `filepath.Clean(p)`
unfoldable pub clean : Bytes → Bytes
unfolding clean_elements is_abs join_with reverse_onto split_byte
clean p =
    let r = split_byte b'/' p in
    let kept = join_with (codes "/") (reverse_onto (clean_elements (is_abs p) [] (r.0 ∷ r.1)) []) in
    if is_abs p then b'/' ∷ kept else dot_if_empty kept

-- `filepath.Join(a, b)`: empty elements are left out
unfoldable pub join_path : Bytes → Bytes → Bytes
unfolding clean
join_path [] [] = []
join_path [] (c ∷ b) = clean (c ∷ b)
join_path (c ∷ a) [] = clean (c ∷ a)
join_path (c ∷ a) (d ∷ b) = clean ((c ∷ a) ++ b'/' ∷ d ∷ b)

-- a text cut behind its last slash
unfoldable pub split_path : Bytes → Bytes × Bytes
split_path [] = ([], [])
split_path (c ∷ s) =
    let later = split_path s in
    elim later.0 [
      | [] ↦ if c == b'/' then (c ∷ [], s) else ([], c ∷ s)
      | _ ∷ _ ↦ (c ∷ later.0, later.1)
    ]

-- without the slashes at the end
unfoldable pub trim_slashes : Bytes → Bytes
trim_slashes [] = []
trim_slashes (c ∷ s) =
    let later = trim_slashes s in
    elim later [ [] ↦ if c == b'/' then [] else c ∷ [] | d ∷ t ↦ c ∷ d ∷ t ]

abbrev root_if_empty : Bytes → Bytes
root_if_empty [] = codes "/"
root_if_empty (c ∷ s) = c ∷ s

-- `filepath.Base(p)`
unfoldable pub base_path : Bytes → Bytes
unfolding split_path trim_slashes
base_path [] = codes "."
base_path (c ∷ p) = root_if_empty (split_path (trim_slashes (c ∷ p))).1

-- `filepath.Dir(p)`
unfoldable pub dir_path : Bytes → Bytes
unfolding clean split_path
dir_path p = clean (split_path p).0
