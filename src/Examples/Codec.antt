-- ===== src/Examples/Codec.antt =====
-- A stream of two messages, and the vector of two of them, with a compression that stores.
use shamichan.Prelude.{ℕ, suc, ◌≡◌, ◌≢◌, refl, List, [], ◌∷◌, none, some, length, arith, append-nil}
use mathlib.Core.List.{flatten}
use shamichan.Codec.MessageType.{MessageType, to_u8}
use shamichan.Codec.Encoder.{finish, join, serialize_into}
use shamichan.Codec.Encoder
use shamichan.Codec.Encoder.Escaped.{escaped}
use shamichan.Codec.Splitter.{Result, Error, empty, write}
use shamichan.Codec.Splitter.Scan.{get_ok, run, bind, close, reading, write-run}
use shamichan.Codec.Decoder
use shamichan.Codec.Decoder.{Decoder, fill_splitter}
use shamichan.Codec.Decoder.Fuel.{new-Ends}
use shamichan.Codec.RoundTrip.{Message, write_messages, stream}
use shamichan.Codec.Chunks.{Compression, Whole, Holds, new-finish, write_cut}
use shamichan.Codec.Vector.{fill_each, fill_splitter-join}

flatten_one : (raw : List ℕ) → flatten (raw ∷ []) ≡ raw
unfolding mathlib.Core.List.flatten
flatten_one raw = append-nil raw

-- Compressed data is the data itself, written out in one chunk.
abbrev store : Compression
store = record {
  deflate = λ raw. raw;
  inflate = λ raw. some (raw ∷ []);
  chunks = λ raw. raw ∷ [];
  inflate-deflate = λ raw. refl;
  flatten-chunks = flatten_one;
}

-- A payload that holds the header byte, and an empty one.
abbrev messages : List Message
messages =
    record { typ = MessageType.backspace; pieces = (1 ∷ 174 ∷ []) ∷ (2 ∷ []) ∷ [] }
    ∷ record { typ = MessageType.append; pieces = [] }
    ∷ []

messages-Whole : Whole (store.chunks (stream messages))
unfolding to_u8 escaped mathlib.Core.List.flatten
messages-Whole = (refl, tt)

new-finish_example :
    (d : Decoder) × (Decoder.new store.inflate
        (finish store.deflate (write_messages (Encoder.new []) messages))
      ≡ Result.ok d)
    × Holds d messages
new-finish_example = new-finish store messages messages-Whole

write-run_example :
    get_ok (write empty (174 ∷ 3 ∷ 7 ∷ 174 ∷ 255 ∷ []))
    ≡ bind (run (reading empty) (174 ∷ 3 ∷ 7 ∷ 174 ∷ 255 ∷ [])) close
write-run_example = write-run empty (174 ∷ 3 ∷ 7 ∷ 174 ∷ 255 ∷ [])

new-Ends_example :
    Decoder.new store.inflate (1 ∷ 2 ∷ 0 ∷ 0 ∷ 0 ∷ 1 ∷ 1 ∷ []) ≢ Result.err Error.stuck
new-Ends_example = new-Ends store.inflate (1 ∷ 2 ∷ 0 ∷ 0 ∷ 0 ∷ 1 ∷ 1 ∷ [])

fill_splitter-join_example :
    fill_splitter store.inflate
      (suc (length (join ((0 ∷ []) ∷ (0 ∷ 174 ∷ 3 ∷ []) ∷ []))))
      empty
      (join ((0 ∷ []) ∷ (0 ∷ 174 ∷ 3 ∷ []) ∷ []))
    ≡ fill_each store.inflate empty ((0 ∷ []) ∷ (0 ∷ 174 ∷ 3 ∷ []) ∷ [])
fill_splitter-join_example =
    fill_splitter-join store.inflate empty ((0 ∷ []) ∷ (0 ∷ 174 ∷ 3 ∷ []) ∷ [])
      (omega arith, (omega arith, tt))

write_cut_example : get_ok (write empty (174 ∷ 3 ∷ 7 ∷ 174 ∷ [])) ≡ none
write_cut_example = write_cut empty (174 ∷ 3 ∷ 7 ∷ 174 ∷ []) refl
