-- ===== src/Codec/RoundTrip.antt =====
-- Messages that are encoded into one stream are split into the same messages.
use shamichan.Prelude.{
  ℕ, zero, suc, ◌+◌, ◌-◌, ◌≡◌, refl, sym, ap, ap₂, ◌∙◌, List, [], ◌∷◌, ◌++◌, map, some, false, ◌==◌,
  length, take, get_elem?, append-nil, append_assoc, Bool-cases, inl, inr, arith, eqb→eq,
  length-append, take_left, drop_left,
}
use mathlib.Core.List.{flatten}
use shamichan.Codec.MessageType.{MessageType, to_u8, from_u8-to_u8, to_u8_lt}
use shamichan.Codec.Encoder.{Encoder, header, escape, write_message}
use shamichan.Codec.Encoder.Escaped.{escaped, serialize_into-flatten}
use shamichan.Codec.Splitter.{Splitter, extend}
use shamichan.Codec.Splitter.Scan.{reading, start, bind, run, run-append}
use shamichan.Codec.Decoder.{slice, next_start}

-- A message with its payload in the pieces that bincode writes.
pub record Message : Type 0 where
  pub typ : MessageType
  pub pieces : List (List ℕ)

abbrev pub body : Message → List ℕ
body m = flatten m.pieces

-- One encoder writes the messages in turn.
abbrev pub write_messages : Encoder → List Message → Encoder
write_messages e [] = e
write_messages e (m ∷ ms) = write_messages (write_message e m.typ m.pieces) ms

abbrev pub stream : List Message → List ℕ
stream [] = []
stream (m ∷ ms) = header ∷ to_u8 m.typ ∷ (escaped (body m) ++ stream ms)

pub raw-write_messages :
    (ms : List Message) (e : Encoder) → (write_messages e ms).raw ≡ e.raw ++ stream ms
unfolding write_message
raw-write_messages [] e = sym (append-nil e.raw)
raw-write_messages (m ∷ ms) e =
    raw-write_messages ms (write_message e m.typ m.pieces)
    ∙ ap (λ v. v ++ stream ms)
        (serialize_into-flatten (e.raw ++ header ∷ to_u8 m.typ ∷ []) m.pieces)
    ∙ append_assoc (e.raw ++ header ∷ to_u8 m.typ ∷ []) (escaped (body m)) (stream ms)
    ∙ append_assoc e.raw (header ∷ to_u8 m.typ ∷ []) (escaped (body m) ++ stream ms)

pub out-write_messages : (ms : List Message) (e : Encoder) → (write_messages e ms).out ≡ e.out
unfolding write_message
out-write_messages [] e = refl
out-write_messages (m ∷ ms) e = out-write_messages ms (write_message e m.typ m.pieces)

-- What the splitter holds after the messages.
abbrev pub deliver : Splitter → List Message → Splitter
deliver s [] = s
deliver s (m ∷ ms) = deliver (extend (start s m.typ) (body m)) ms

extend_nil : (s : Splitter) → extend s [] ≡ s
extend_nil s = ap (λ v. record s { buf = v }) (append-nil s.buf)

extend_cons :
    (s : Splitter) (b : ℕ) (bs : List ℕ) → extend (extend s (b ∷ [])) bs ≡ extend s (b ∷ bs)
extend_cons s b bs = ap (λ v. record s { buf = v }) (append_assoc s.buf (b ∷ []) bs)

-- Reading an escaped text appends the text.
run-escaped :
    (bs : List ℕ) (s : Splitter) → run (reading s) (escaped bs) ≡ some (reading (extend s bs))
unfolding run escaped
run-escaped [] s = ap (λ v. some (reading v)) (sym (extend_nil s))
run-escaped (b ∷ bs) s = elim (Bool-cases (b == header)) [
  | inl e ↦ rw e (
      run-escaped bs (extend s (header ∷ []))
      ∙ ap (λ v. some (reading v))
          (extend_cons s header bs ∙ ap (λ v. extend s (v ∷ bs)) (sym (eqb→eq b header e))))
  | inr e ↦
      rw (e, run, e)
        (run-escaped bs (extend s (b ∷ [])) ∙ ap (λ v. some (reading v)) (extend_cons s b bs))
]

type_ne_escape : (t : MessageType) → (to_u8 t == escape) ≡ false
type_ne_escape t = ground (arith, to_u8_lt t)

run-header :
    (s : Splitter) (t : MessageType) (rest : List ℕ)
    → run (reading s) (header ∷ to_u8 t ∷ rest) ≡ run (reading (start s t)) rest
unfolding run
run-header s t rest = rw (type_ne_escape t, from_u8-to_u8 t)

pub run-stream :
    (ms : List Message) (s : Splitter) → run (reading s) (stream ms) ≡ some (reading (deliver s ms))
run-stream [] s = unfold run in refl
run-stream (m ∷ ms) s =
    run-header s m.typ (escaped (body m) ++ stream ms)
    ∙ run-append (escaped (body m)) (stream ms) (reading (start s m.typ))
    ∙ ap (λ o. bind o (λ next. run next (stream ms))) (run-escaped (body m) (start s m.typ))
    ∙ run-stream ms (extend (start s m.typ) (body m))

abbrev pub bodies : List Message → List ℕ
bodies [] = []
bodies (m ∷ ms) = body m ++ bodies ms

abbrev pub starts_from : ℕ → List Message → List ℕ
starts_from n [] = []
starts_from n (m ∷ ms) = n ∷ starts_from (n + length (body m)) ms

-- The splitter's three lists after the messages.
pub deliver_fields :
    (ms : List Message) (s : Splitter)
    → ((deliver s ms).buf ≡ s.buf ++ bodies ms)
      × ((deliver s ms).message_starts ≡ s.message_starts ++ starts_from (length s.buf) ms)
      × ((deliver s ms).message_types ≡ s.message_types ++ map (λ m. m.typ) ms)
deliver_fields [] s = (sym (append-nil _), sym (append-nil _), sym (append-nil _))
deliver_fields (m ∷ ms) s =
    let (a, b, c) = deliver_fields ms (extend (start s m.typ) (body m)) in
    (
      a ∙ append_assoc s.buf (body m) (bodies ms),
      b
          ∙ ap (λ n. (s.message_starts ++ length s.buf ∷ []) ++ starts_from n ms)
              (length-append s.buf (body m))
          ∙ append_assoc s.message_starts (length s.buf ∷ []) _,
      c ∙ append_assoc s.message_types (m.typ ∷ []) _,
    )

-- The end of the first body, where the second starts or the buffer ends.
first_end :
    (pre : List ℕ) (m : Message) (ms : List Message)
    → next_start
          (get_elem? (starts_from (length pre + length (body m)) ms) 0)
          (pre ++ (body m ++ bodies ms))
        - length pre
      ≡ length (body m)
first_end pre m [] = omega (arith, length-append pre (body m ++ []), length-append (body m) [])
first_end pre m (n ∷ ms) = omega arith

pub slice-bodies :
    (ms : List Message) (pre : List ℕ) (k : ℕ)
    → slice (pre ++ bodies ms) (starts_from (length pre) ms) k ≡ get_elem? (map body ms) k
unfolding slice
slice-bodies [] pre k = refl
slice-bodies (m ∷ ms) pre zero =
    ap₂ (λ n r. some (take n r)) (first_end pre m ms) (drop_left pre (body m ++ bodies ms))
    ∙ ap some (take_left (body m) (bodies ms))
slice-bodies (m ∷ ms) pre (suc k) =
    ap₂ (λ buf n. slice buf (starts_from n ms) k) (sym (append_assoc pre (body m) (bodies ms)))
      (sym (length-append pre (body m)))
    ∙ slice-bodies ms (pre ++ body m) k
