-- ===== src/Codec/Splitter.antt =====
-- `MessageSplitter` of common/src/codec.rs.
pub mod Scan
pub mod Fuel
use shamichan.Prelude.{
  ℕ, zero, suc, ◌+◌, ◌-◌, List, [], ◌∷◌, ◌++◌, Option, none, some, if◌then◌else◌, not, ◌==◌, length,
  take, drop, get_elem?,
}
use shamichan.Codec.MessageType.{MessageType, from_u8}
use shamichan.Codec.Encoder.{escape, position}

pub record Splitter : Type 0 where
  pub buf : List ℕ
  pub message_starts : List ℕ
  pub message_types : List MessageType

-- The `io::Error`s of the decoder. `stuck` is none of them: a loop of the model ran out of fuel.
pub data Error : Type 0 where
  ends_with_header zero_length deflate not_found deserialize stuck : Error
  -- the byte named in the message
  invalid_message_type : Option ℕ → Error
  incomplete : ℕ → Error
  invalid_header_byte : ℕ → Error

pub data Result {ℓ} (A : Type ℓ) : Type ℓ where
  ok : A → Result A
  err : Error → Result A

infixl 5 ◌>>=◌
abbrev pub ◌>>=◌ {ℓ κ} : {A : Type ℓ} {B : Type κ} → Result A → (A → Result B) → Result B
ok a >>= f = f a
err e >>= f = err e

-- `MessageSplitter::new`
abbrev pub empty : Splitter
empty = record { buf = []; message_starts = []; message_types = [] }

abbrev pub mark : Splitter → List ℕ → ℕ → MessageType → Splitter
mark s buf i t = record {
  buf = s.buf ++ take i buf;
  message_starts = s.message_starts ++ (length s.buf + i) ∷ [];
  message_types = s.message_types ++ t ∷ [];
}

abbrev pub extend : Splitter → List ℕ → Splitter
extend s bs = record s { buf = s.buf ++ bs }

-- What follows a header byte at `i`, where it is not the last byte: a message type, or an escape.
unfoldable pub after_header : Splitter → List ℕ → ℕ → Option ℕ → Result Splitter
after_header s buf i none = err ends_with_header
after_header s buf i (some next) =
    if not (next == escape)
    then elim (from_u8 next) [
      | some typ ↦ ok (mark s buf i typ)
      | none ↦ err (invalid_message_type (get_elem? buf 1))
    ]
    else ok (extend s (take (suc i) buf))

-- One round of the loop of `MessageSplitter::write`, and the rounds after it.
abbrev pub splitter_round :
    Splitter → List ℕ → Option ℕ → (Splitter → List ℕ → Result Splitter) → Result Splitter
splitter_round s buf (some i) rest =
    if i == length buf - 1
    then err ends_with_header
    else (after_header s buf i (get_elem? buf (suc i)) >>= λ s'. rest s' (drop (suc (suc i)) buf))
splitter_round s buf none rest = ok (extend s buf)

-- Each round takes a byte at least, so `length buf` rounds are enough.
unfoldable pub splitter_loop : ℕ → Splitter → List ℕ → Result Splitter
unfolding after_header
splitter_loop fuel s [] = ok s
splitter_loop zero s (b ∷ bs) = err stuck
splitter_loop (suc fuel) s (b ∷ bs) =
    splitter_round s (b ∷ bs) (position (b ∷ bs)) (splitter_loop fuel)

-- `MessageSplitter::write`
unfoldable pub write : Splitter → List ℕ → Result Splitter
unfolding splitter_loop
write s buf = splitter_loop (length buf) s buf
