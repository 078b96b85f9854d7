-- ===== src/Codec/Encoder.antt =====
-- `Escaper` and `Encoder` of common/src/codec.rs. A writer is the bytes written to it so far.
pub mod Escaped
use shamichan.Prelude.{
  ℕ, zero, suc, ◌+◌, ◌/◌, ◌%◌, ◌^◌, List, [], ◌∷◌, ◌++◌, Option, none, some, if◌then◌else◌, ◌==◌,
  length, take, drop,
}
use mathlib.Core.Option
use shamichan.Codec.MessageType.{MessageType, to_u8}

abbrev pub header : ℕ
header = 174

abbrev pub escape : ℕ
escape = 255

-- `buf.iter().position(|b| *b == HEADER)`
unfoldable pub position : List ℕ → Option ℕ
position [] = none
position (b ∷ bs) = if b == header then some 0 else Option.map suc (position bs)

-- One round of the loop of `Escaper::write`, with the header byte's place and the rounds after it.
abbrev pub escaper_round : List ℕ → List ℕ → Option ℕ → (List ℕ → List ℕ → List ℕ) → List ℕ
escaper_round w buf (some i) rest =
    rest ((w ++ take i buf) ++ header ∷ escape ∷ []) (drop (suc i) buf)
escaper_round w buf none rest = w ++ buf

-- Each round takes a byte at least, so `length buf` rounds are enough.
unfoldable pub escaper_loop : ℕ → List ℕ → List ℕ → List ℕ
escaper_loop fuel w [] = w
escaper_loop zero w (b ∷ bs) = w
escaper_loop (suc fuel) w (b ∷ bs) =
    escaper_round w (b ∷ bs) (position (b ∷ bs)) (escaper_loop fuel)

-- `Escaper::write`
unfoldable pub escaper_write : List ℕ → List ℕ → List ℕ
unfolding escaper_loop
escaper_write w buf = escaper_loop (length buf) w buf

-- bincode's `serialize_into` hands the payload to the writer piece by piece.
unfoldable pub serialize_into : List ℕ → List (List ℕ) → List ℕ
unfolding escaper_write
serialize_into w [] = w
serialize_into w (piece ∷ pieces) = serialize_into (escaper_write w piece) pieces

-- `out` is what stands in the output before the compressed stream, `raw` what was handed to the
-- compressor.
pub record Encoder : Type 0 where
  pub out : List ℕ
  pub raw : List ℕ

-- `Encoder::new`, with the byte of `init_single_message`
unfoldable pub new : List ℕ → Encoder
new w = record { out = w ++ 0 ∷ []; raw = [] }

-- `Encoder::write_message`
unfoldable pub write_message : Encoder → MessageType → List (List ℕ) → Encoder
write_message e t payload = record e {
  raw = serialize_into (e.raw ++ header ∷ to_u8 t ∷ []) payload;
}

module _ (deflate : List ℕ → List ℕ) where
  -- `Encoder::finish`
  unfoldable pub finish : Encoder → List ℕ
  finish e = e.out ++ deflate e.raw

  -- `Encoder::encode`
  unfoldable pub encode : MessageType → List (List ℕ) → List ℕ
  unfolding new write_message finish
  encode t payload = finish (write_message (new []) t payload)

  -- `Encoder::reset`: the finished stream, and the encoder on the new output.
  unfoldable pub reset : Encoder → List ℕ → List ℕ × Encoder
  unfolding new finish
  reset e w = (finish e, new w)

-- `(n as i32).to_le_bytes()`
unfoldable pub le_bytes : ℕ → List ℕ
le_bytes n = n % 256 ∷ n / 2 ^ 8 % 256 ∷ n / 2 ^ 16 % 256 ∷ n / 2 ^ 24 % 256 ∷ []

-- The loop of `Encoder::join`.
unfoldable pub join_loop : List (List ℕ) → List ℕ → List ℕ
join_loop [] w = w
join_loop (s ∷ encoded) w = join_loop encoded ((w ++ le_bytes (length s)) ++ s)

-- `Encoder::join`
unfoldable pub join : List (List ℕ) → List ℕ
unfolding join_loop
join encoded = join_loop encoded (1 ∷ [])
