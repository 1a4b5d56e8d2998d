-- ===== src/Progressive/Probe.antt =====
-- progressive/progressive.go: what `scan` finds in the terminal's replies.
use websh.Base.{
  ℕ, zero, suc, ◌+◌, Bool, false, not, ◌&&◌, ◌||◌, Option, none, some, List, [], ◌∷◌, ◌++◌, ◌==◌,
  if◌then◌else◌, Bytes, codes, equal, index, is_digit, length, take, drop,
}
use websh.Base.Paths.{split_byte}
use websh.Progressive.Filter.{terminator}

-- `Caps`: the fields that are read here, and the JSON of the others.
pub record Caps : Type 0 where
  pub host : Bytes
  pub trust : Bytes
  pub features : List Bytes
  pub path : Bytes
  pub others : Bytes

unfoldable pub has_text : List Bytes → Bytes → Bool
unfolding equal
has_text [] s = false
has_text (t ∷ ts) s = equal t s || has_text ts s

-- `Has`, and `LinkPath`; no `Caps` is nil
unfoldable pub has : Option Caps → Bytes → Bool
unfolding has_text
has none feature = false
has (some c) feature = has_text c.features feature

unfoldable pub link_path : Option Caps → Bytes
link_path none = []
link_path (some c) = c.path

-- What `cutString` finds: no head, a head without its end, or a string, with the bytes around it.
pub data CutString : Type 0 where
  not_there not_whole : CutString
  whole : Bytes → Bytes → CutString

abbrev cut_end : Bytes → Bytes → Option (ℕ × ℕ) → CutString
cut_end front tail none = not_whole
cut_end front tail (some (at, n)) = whole (take at tail) (front ++ drop (at + n) tail)

abbrev pub cut_head : Bytes → Bytes → Option ℕ → CutString
unfolding terminator
cut_head b head none = not_there
cut_head b head (some i) =
    let tail = drop (i + length head) b in cut_end (take i b) tail (terminator tail)

-- `cutString(b, head)`
unfoldable pub cut_string : Bytes → Bytes → CutString
unfolding index terminator
cut_string b head = cut_head b head (index b head)

-- the head of a DA1 reply, `\x1b[?`
abbrev pub da1_head : Bytes
da1_head = 0x1b ∷ b'[' ∷ b'?' ∷ []

-- the digits and semicolons in front
unfoldable pub da1_params : Bytes → Bytes
da1_params [] = []
da1_params (c ∷ s) = let later = da1_params s in if is_digit c || c == b';' then c ∷ later else []

-- What stands behind the parameters: the end of the input, the reply's `c`, or another byte.
pub data Da1End : Type 0 where
  input_end other_byte : Da1End
  reply_end : Bytes → Da1End

abbrev pub da1_end : Bytes → Da1End
da1_end [] = input_end
da1_end (c ∷ s) = if c == b'c' then reply_end s else other_byte

abbrev attributes : Bytes → List Bytes
unfolding split_byte
attributes s = let parts = split_byte b';' s in parts.0 ∷ parts.1

-- the loop of `cutDA1` behind the bytes `front`, for a number of rounds
unfoldable pub cut_da1_from : ℕ → Bytes → Bytes → Option (List Bytes × Bytes)
unfolding da1_params index split_byte
cut_da1_from zero front b = none
cut_da1_from (suc fuel) front b = elim (index b da1_head) [
  | none ↦ none
  | some i ↦
      let params = da1_params (drop (i + 3) b) in
      let j = i + 3 + length params in
      elim (da1_end (drop j b)) [
        | input_end ↦ none
        | reply_end s ↦ some (attributes params, front ++ (take i b ++ s))
        | other_byte ↦ cut_da1_from fuel (front ++ take j b) (drop j b)
      ]
]

-- `cutDA1(b)`: each round goes on behind a head, so there are fewer than bytes
unfoldable pub cut_da1 : Bytes → Option (List Bytes × Bytes)
unfolding cut_da1_from
cut_da1 b = cut_da1_from (suc (length b)) [] b

-- What the terminal has said: the body of websh's reply, whether kitty's says OK, and the name of
-- XTVERSION; and the bytes that are none of these. none is a reply whose end is missing.
pub record Replies : Type 0 where
  pub websh : Option Bytes
  pub kitty : Bool
  pub name : Bytes
  pub left : Bytes

-- `replyHead`, `kittyReply` and `xtReply`
abbrev pub reply_head : Bytes
reply_head = 0x1b ∷ codes "]7337;caps;"

abbrev pub kitty_reply : Bytes
kitty_reply = 0x1b ∷ codes "_Gi=31;"

abbrev pub xt_reply : Bytes
xt_reply = 0x1b ∷ codes "P>|"

abbrev websh_reply : Bytes → CutString → Option Replies
websh_reply b not_there = some (record { websh = none; kitty = false; name = []; left = b })
websh_reply b not_whole = none
websh_reply b (whole body left) =
    some (record { websh = some body; kitty = false; name = []; left = left })

abbrev pub kitty_reply_of : Replies → CutString → Option Replies
unfolding equal
kitty_reply_of r not_there = some r
kitty_reply_of r not_whole = none
kitty_reply_of r (whole body left) =
    some (record r { kitty = equal body (codes "OK"); left = left })

abbrev xt_reply_of : Replies → CutString → Option Replies
xt_reply_of r not_there = some r
xt_reply_of r not_whole = none
xt_reply_of r (whole body left) = some (record r { name = body; left = left })

abbrev and_then : Option Replies → (Replies → Option Replies) → Option Replies
and_then none next = none
and_then (some r) next = next r

unfoldable pub replies : Bytes → Option Replies
unfolding cut_string equal
replies b = and_then (websh_reply b (cut_string b reply_head)) (λ r.
    and_then (kitty_reply_of r (cut_string r.left kitty_reply))
      (λ q. xt_reply_of q (cut_string q.left xt_reply)))

abbrev with_feature : Bool → Bytes → Caps → Caps
with_feature b feature c = if b then record c { features = c.features ++ feature ∷ [] } else c

-- a terminal that is no host: its own features only
abbrev own_caps : Bool → Bytes → Option Caps
own_caps said name =
    if said
    then some (record { host = name; trust = codes "local"; features = []; path = []; others = [] })
    else none

abbrev pub with_features : Bool → Bool → Option Caps → Option Caps
unfolding has_text has
with_features kitty sixel none = none
with_features kitty sixel (some c) =
    let k =
      with_feature (kitty && not (has (some c) (codes "kitty-graphics"))) (codes "kitty-graphics")
        c in
    some (with_feature (sixel && not (has (some k) (codes "sixel"))) (codes "sixel") k)

abbrev or_own : Option Caps → Option Caps → Option Caps
or_own (some c) own = some c
or_own none own = own

abbrev decoded : (Bytes → Option Caps) → Option Bytes → Option Caps
decoded decode none = none
decoded decode (some body) = decode body

-- the capabilities that the replies and the attributes of DA1 come to
unfoldable pub caps_of : (Bytes → Option Caps) → Replies → List Bytes → Option Caps
unfolding has_text equal has
caps_of decode r attrs =
    let sixel = has_text attrs (codes "4") in
    let own = own_caps (r.kitty || sixel || not (equal r.name [])) r.name in
    with_features r.kitty sixel (or_own (decoded decode r.websh) own)

abbrev pub scan_end :
    (Bytes → Option Caps) → Replies → Option (List Bytes × Bytes) → Option (Option Caps × Bytes)
unfolding caps_of
scan_end decode r none = none
scan_end decode r (some (attrs, left)) = some (caps_of decode r attrs, left)

abbrev pub scan_replies : (Bytes → Option Caps) → Option Replies → Option (Option Caps × Bytes)
unfolding caps_of cut_da1
scan_replies decode none = none
scan_replies decode (some r) = scan_end decode r (cut_da1 r.left)

-- `scan(buf)`; `none` is not done, and `decode` is base64 and `json.Unmarshal`
unfoldable pub scan_caps : (Bytes → Option Caps) → Bytes → Option (Option Caps × Bytes)
unfolding caps_of cut_da1 replies
scan_caps decode buf = scan_replies decode (replies buf)
