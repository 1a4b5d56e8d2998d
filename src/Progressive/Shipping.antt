-- ===== src/Progressive/Shipping.antt =====
-- progressive: the sequences that a program writes, long data in chunks (ship.go, font.go,
-- media.go, mirror.go, page.go).
use websh.Base.{
  ℕ, zero, suc, ◌+◌, ◌/◌, ◌%◌, Bool, false, List, [], ◌∷◌, ◌++◌, ◌==◌, if◌then◌else◌, Bytes, codes,
  length, take, drop, ltb,
}

-- What the sequences take from Go's encoding/base64 and encoding/json: the encoding of a text, and
-- the base64 of the JSON of each object.
pub record Encodings : Type 0 where
  pub base64 : Bytes → Bytes
  -- `{"kind": …, "more": …}`
  pub ship_meta : Bytes → Bool → Bytes
  -- `{"family": …, "more": …}`, with a size above 0
  pub font_meta : Bytes → Bool → Bytes
  -- `{"more": …}`
  pub mirror_meta : Bool → Bytes
  -- `{"id": …, "type": …, "loop": …, "more": …}`, with a volume from 0 on
  pub sound_meta : Bytes → Bytes → Bool → Bool → Bytes
  pub page_meta : Bytes → Bytes → Bytes

-- `osc(body)`
abbrev pub osc : Bytes → Bytes
osc body = 0x1b ∷ (codes "]7337;" ++ (body ++ 0x1b ∷ b'\\' ∷ []))

-- `shipChunk`
abbrev pub ship_chunk : ℕ
ship_chunk = 3072

-- the loop of `Ship`, `Font` and others: one sequence for each chunk; there are no more than bytes
unfoldable pub chunk_loop : (Bool → Bytes → Bytes) → ℕ → Bytes → List Bytes
chunk_loop seq zero s = []
chunk_loop seq (suc fuel) [] = []
chunk_loop seq (suc fuel) (c ∷ s) =
    seq (ltb ship_chunk (length (c ∷ s))) (take ship_chunk (c ∷ s))
    ∷ chunk_loop seq fuel (drop ship_chunk (c ∷ s))

-- the sequences of some data, of which there is one at least
unfoldable pub chunked : (Bool → Bytes → Bytes) → Bytes → List Bytes
unfolding chunk_loop
chunked seq [] = seq false [] ∷ []
chunked seq (c ∷ s) = chunk_loop seq (length (c ∷ s)) (c ∷ s)

module _ (e : Encodings) where
  -- `Ship` and `ShipWasm`
  unfoldable pub ship : Bytes → Bytes → List Bytes
  unfolding chunked
  ship name html =
      chunked
        (λ more s. osc (
          codes "ship;" ++ (name ++ b';' ∷ (e.ship_meta (codes "html") more ++ b';' ∷ e.base64 s))))
        html

  unfoldable pub ship_wasm : Bytes → Bytes → List Bytes
  unfolding chunked
  ship_wasm name wasm =
      chunked
        (λ more s. osc (
          codes "ship;" ++ (name ++ b';' ∷ (e.ship_meta (codes "wasm") more ++ b';' ∷ e.base64 s))))
        wasm

  -- `Font`, for one size
  unfoldable pub font : Bytes → Bytes → List Bytes
  unfolding chunked
  font family s =
      chunked (λ more t. osc (codes "font;" ++ (e.font_meta family more ++ b';' ∷ e.base64 t))) s

  -- `Mirror`
  unfoldable pub mirror : Bytes → List Bytes
  unfolding chunked
  mirror html =
      chunked (λ more s. osc (codes "mirror;" ++ (e.mirror_meta more ++ b';' ∷ e.base64 s))) html

  -- `SoundData`, for one volume
  unfoldable pub sound_data : Bytes → Bytes → Bytes → Bool → List Bytes
  unfolding chunked
  sound_data id mime s looped =
      chunked
        (λ more t. osc (codes "sound;" ++ (e.sound_meta id mime looped more ++ b';' ∷ e.base64 t)))
        s

  -- `Page`, and `Copy`
  unfoldable pub page : Bytes → Bytes → Bytes
  page path title = osc (codes "page;" ++ e.page_meta path title)

  unfoldable pub copy : Bytes → Bytes
  copy text = 0x1b ∷ (codes "]52;c;" ++ (e.base64 text ++ 0x1b ∷ b'\\' ∷ []))

-- the loop of `itoa`, which puts the digits in front; a round takes a digit
unfoldable pub itoa_from : ℕ → ℕ → Bytes → Bytes
itoa_from zero n b = b
itoa_from (suc fuel) n b =
    let later = itoa_from fuel (n / 10) ((b'0' + n % 10) ∷ b) in if n == 0 then b else later

-- `itoa(n)`
unfoldable pub own_itoa : ℕ → Bytes
unfolding itoa_from
own_itoa n = if n == 0 then codes "0" else itoa_from n n []

module _ (e : Encodings) where
  abbrev file_head : Bytes → Bytes → Bytes
  file_head name s = 0x1b ∷ (codes "]1337;File=name=" ++ (e.base64 name ++ (codes ";size=" ++ s)))

  -- `Download`
  unfoldable pub download : Bytes → Bytes → Bytes
  unfolding own_itoa
  download name s =
      file_head name (own_itoa (length s) ++ (codes ";inline=0:" ++ (e.base64 s ++ 7 ∷ [])))

  abbrev size_part : Bytes → Bytes → Bytes
  size_part key [] = []
  size_part key (c ∷ v) = key ++ c ∷ v

  -- `Image`
  unfoldable pub image : Bytes → Bytes → Bytes → Bytes → Bytes
  unfolding own_itoa
  image name s width height = file_head name (
      own_itoa (length s)
      ++ (codes ";inline=1"
          ++ (size_part (codes ";width=") width
              ++ (size_part (codes ";height=") height ++ b':' ∷ (e.base64 s ++ 7 ∷ [])))))

-- `Notify`, and `Title`
unfoldable pub notify_seq : Bytes → Bytes → Bytes
notify_seq title body =
    0x1b ∷ (codes "]777;notify;" ++ (title ++ b';' ∷ (body ++ 0x1b ∷ b'\\' ∷ [])))

unfoldable pub title_seq : Bytes → Bytes
title_seq title = 0x1b ∷ (codes "]2;" ++ (title ++ 0x1b ∷ b'\\' ∷ []))
