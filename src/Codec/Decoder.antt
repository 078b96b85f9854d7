-- ===== src/Codec/Decoder.antt =====
-- `Decoder` of common/src/codec.rs. The deflate library enters as `inflate`, which gives the chunks
-- that its writer hands on, or none for corrupt data; bincode as `from_bytes`.
pub mod Fuel
use shamichan.Prelude.{
  ℕ, zero, suc, ◌+◌, ◌-◌, ◌*◌, ◌^◌, List, [], ◌∷◌, Option, none, some, if◌then◌else◌, ◌==◌, ltb,
  length, take, drop, get_elem?,
}
use shamichan.Codec.MessageType.{MessageType}
use shamichan.Codec.Splitter.{
  Splitter, Result, ok, err, ◌>>=◌, zero_length, deflate, not_found, deserialize, stuck, incomplete,
  invalid_header_byte, empty, write,
}

-- `write_all`, for each chunk that is decompressed.
unfoldable pub write_all : Splitter → List (List ℕ) → Result Splitter
write_all dst [] = ok dst
write_all dst (chunk ∷ chunks) = write dst chunk >>= λ s. write_all s chunks

abbrev pub byte_at : List ℕ → ℕ → ℕ
byte_at r i = elim (get_elem? r i) [ none ↦ 0 | some b ↦ b ]

-- `i32::from_le_bytes(..) as usize`, where `usize` has 64 bits: a negative length becomes huge.
unfoldable pub from_le_bytes : List ℕ → ℕ
from_le_bytes r =
    let n = byte_at r 0 + 2 ^ 8 * byte_at r 1 + 2 ^ 16 * byte_at r 2 + 2 ^ 24 * byte_at r 3 in
    if ltb n (2 ^ 31) then n else n + (2 ^ 64 - 2 ^ 32)

module _ (inflate : List ℕ → Option (List (List ℕ))) where
  abbrev pub decompress : Splitter → List ℕ → Result Splitter
  decompress dst rest = elim (inflate rest) [ none ↦ err deflate | some cs ↦ write_all dst cs ]

  -- The branches on the first byte, over the loop for a vector of messages.
  abbrev pub branch :
      (Splitter → List ℕ → Result Splitter) → Splitter → ℕ → List ℕ → Result Splitter
  branch vector dst b rest =
      if b == 0
      then decompress dst rest
      else if b == 1
      then vector dst rest
      else err (invalid_header_byte b)

  -- One round of that loop, over the recursive call and the rounds after it.
  abbrev pub element :
      (Splitter → List ℕ → Result Splitter)
      → (Splitter → List ℕ → Result Splitter)
      → Splitter
      → List ℕ
      → Result Splitter
  element fill vector dst r =
      let len = from_le_bytes (take 4 r) in
      if ltb (length r) 4
      then err (incomplete 4)
      else if ltb (length (drop 4 r)) len
      then err (incomplete len)
      else (fill dst (take len (drop 4 r)) >>= λ s. vector s (drop len (drop 4 r)))

  -- `Decoder::fill_splitter`, and its loop over a vector of messages. Both recur on parts of the
  -- buffer, so its length bounds the fuel.
  unfoldable mutual
    pub fill_splitter : ℕ → Splitter → List ℕ → Result Splitter
    fill_splitter zero dst r = err stuck
    fill_splitter (suc fuel) dst [] = err zero_length
    fill_splitter (suc fuel) dst (b ∷ rest) = branch (fill_vector fuel) dst b rest

    pub fill_vector : ℕ → Splitter → List ℕ → Result Splitter
    fill_vector fuel dst [] = ok dst
    fill_vector zero dst (b ∷ bs) = err stuck
    fill_vector (suc fuel) dst (b ∷ bs) =
        element (fill_splitter fuel) (fill_vector fuel) dst (b ∷ bs)

pub record Decoder : Type 0 where
  pub splitter : Splitter
  pub off : ℕ

-- `Decoder::new`
unfoldable pub new : (List ℕ → Option (List (List ℕ))) → List ℕ → Result Decoder
unfolding fill_splitter
new inflate r =
    fill_splitter inflate (suc (length r)) empty r >>= λ s. ok (record { splitter = s; off = 0 })

-- `Decoder::peek_type`
unfoldable pub peek_type : Decoder → Option MessageType
peek_type d = get_elem? d.splitter.message_types d.off

-- `Decoder::skip_next`
unfoldable pub skip_next : Decoder → Decoder
skip_next d = record d { off = d.off + 1 }

abbrev pub next_start : Option ℕ → List ℕ → ℕ
next_start none buf = length buf
next_start (some i) buf = i

-- The bytes that `read_next` cuts out at `off`.
unfoldable pub slice : List ℕ → List ℕ → ℕ → Option (List ℕ)
slice buf starts off = elim (get_elem? starts off) [
  | none ↦ none
  | some i ↦ some (take (next_start (get_elem? starts (suc off)) buf - i) (drop i buf))
]

module _ {ℓ} {T : Type ℓ} (from_bytes : List ℕ → Option T) where
  -- `Decoder::read_next`. A payload that does not deserialize is not stepped over.
  unfoldable pub read_next : Decoder → Result (T × Decoder)
  unfolding slice
  read_next d = elim (slice d.splitter.buf d.splitter.message_starts d.off) [
    | none ↦ err not_found
    | some buf ↦ elim (from_bytes buf) [
      | none ↦ err deserialize
      | some v ↦ ok (v, record d { off = d.off + 1 })
    ]
  ]
