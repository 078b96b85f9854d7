-- ===== src/Codec/Chunks.antt =====
-- A compressed stream reaches the splitter in the chunks that the deflate library hands on, and the
-- splitter keeps no state between two writes (`MessageSplitter::write`, `Decoder::fill_splitter`).
use shamichan.Prelude.{
  ℕ, ◌≡◌, refl, sym, ap, ap₂, ◌∙◌, subst, List, [], ◌∷◌, ◌++◌, map, Option, none, some, Bool, true,
  false, if◌then◌else◌, ◌==◌, get_elem?, Option-cases, inl, inr, arith,
}
use mathlib.Core.List.{flatten}
use shamichan.Codec.MessageType.{from_u8}
use shamichan.Codec.Encoder.{header, escape, finish}
use shamichan.Codec.Encoder
use shamichan.Codec.Splitter.{Splitter, Result, ok, err, ◌>>=◌, empty, write}
use shamichan.Codec.Splitter.Scan.{
  Scan, reading, step, bind, run, run-append, get_ok, close, write-run,
}
use shamichan.Codec.Decoder.{Decoder, write_all, fill_splitter, slice, decompress}
use shamichan.Codec.Decoder
use shamichan.Codec.RoundTrip.{
  Message, body, write_messages, stream, deliver, raw-write_messages, out-write_messages,
  run-stream, deliver_fields, slice-bodies,
}

-- Whether the bytes end behind a header byte that nothing follows yet.
abbrev pub pending_after : Bool → List ℕ → Bool
pending_after p [] = p
pending_after false (b ∷ bs) = pending_after (b == header) bs
pending_after true (b ∷ bs) = pending_after false bs

-- No chunk ends between a header byte and the byte that belongs to it.
abbrev pub Whole : List (List ℕ) → Type 0
Whole [] = Unit {0}
Whole (c ∷ cs) = (pending_after false c ≡ false) × Whole cs

pending_step :
    (st : Scan) (b : ℕ) (next : Scan)
    → step st.pending st.splitter b ≡ some next
    → next.pending ≡ (if st.pending then false else b == header)
pending_step st b next e = go st.pending e
  where
    go :
        (p : Bool)
        → step p st.splitter b ≡ some next
        → next.pending ≡ (if p then false else b == header)
    go false h = ground arith
    go true h = elim (Option-cases (from_u8 b)) [ inl m ↦ ground arith | inr (t, m) ↦ ground arith ]

pending_after_cons :
    (p : Bool) (b : ℕ) (bs : List ℕ)
    → pending_after (if p then false else b == header) bs ≡ pending_after p (b ∷ bs)
pending_after_cons true b bs = refl
pending_after_cons false b bs = refl

run_pending :
    (bs : List ℕ) (st end : Scan) → run st bs ≡ some end → end.pending ≡ pending_after st.pending bs
unfolding run
run_pending [] st end e = cc
run_pending (b ∷ bs) st end e = elim (Option-cases (step st.pending st.splitter b)) [
  | inl n ↦ let c = subst (λ o. bind o (λ next. run next bs) ≡ some end) n e in cc
  | inr (next, n) ↦
      run_pending bs next end (subst (λ o. bind o (λ next. run next bs) ≡ some end) n e)
      ∙ ap (λ p. pending_after p bs) (pending_step st b next n)
      ∙ pending_after_cons st.pending b bs
]

get_ok-bind :
    (m : Result Splitter) (f : Splitter → Result Splitter)
    → get_ok (m >>= f) ≡ bind (get_ok m) (λ s. get_ok (f s))
get_ok-bind (ok s) f = refl
get_ok-bind (err e) f = refl

ok_of_get_ok : (m : Result Splitter) (s : Splitter) → get_ok m ≡ some s → m ≡ ok s
ok_of_get_ok (ok a) s h = cc
ok_of_get_ok (err e) s h = cc

close_reading : (st : Scan) → st.pending ≡ false → close st ≡ some st.splitter
close_reading st p = rw p

reading_of : (st : Scan) → st.pending ≡ false → st ≡ reading st.splitter
reading_of st p = λ i. record { pending = p i; splitter = st.splitter }

-- Chunks that cut no header from its byte are split like their whole.
write_all-run :
    (cs : List (List ℕ)) (s : Splitter)
    → Whole cs
    → get_ok (write_all s cs) ≡ bind (run (reading s) (flatten cs)) close
unfolding write_all flatten
write_all-run [] s w = unfold run in refl
write_all-run (c ∷ cs) s (h, w) =
    get_ok-bind (write s c) (λ s'. write_all s' cs)
    ∙ ap (λ o. bind o (λ s'. get_ok (write_all s' cs))) (write-run s c)
    ∙ rest (λ s'. write_all-run cs s' w) (run (reading s) c) refl
    ∙ ap (λ o. bind o close) (sym (run-append c (flatten cs) (reading s)))
  where
    rest :
        ((s' : Splitter) → get_ok (write_all s' cs) ≡ bind (run (reading s') (flatten cs)) close)
        → (o : Option Scan) → run (reading s) c ≡ o
        → bind (bind o close) (λ s'. get_ok (write_all s' cs))
          ≡ bind (bind o (λ next. run next (flatten cs))) close
    rest ih none e = refl
    rest ih (some next) e =
        let p : next.pending ≡ false = run_pending c (reading s) next e ∙ h in
        ap (λ o. bind o (λ s'. get_ok (write_all s' cs))) (close_reading next p)
        ∙ ih next.splitter
        ∙ ap (λ n. bind (run n (flatten cs)) close) (sym (reading_of next p))

-- A chunk that ends between a header byte and the byte that belongs to it is refused, whatever the
-- chunks before it held and whatever follows.
pub write_cut :
    (s : Splitter) (c : List ℕ) → pending_after false c ≡ true → get_ok (write s c) ≡ none
write_cut s c h = write-run s c ∙ cut (run (reading s) c) refl
  where
    cut : (o : Option Scan) → run (reading s) c ≡ o → bind o close ≡ none
    cut none e = refl
    cut (some next) e = rw (run_pending c (reading s) next e ∙ h)

-- What the deflate library is relied on for: it gives back what it compressed, in some chunks.
pub record Compression : Type 0 where
  pub deflate : List ℕ → List ℕ
  pub inflate : List ℕ → Option (List (List ℕ))
  pub chunks : List ℕ → List (List ℕ)
  pub inflate-deflate : (raw : List ℕ) → inflate (deflate raw) ≡ some (chunks raw)
  pub flatten-chunks : (raw : List ℕ) → flatten (chunks raw) ≡ raw

-- The decoder holds the messages: their types in order, and at each offset the payload's bytes.
pub record Holds (d : Decoder) (ms : List Message) : Type 0 where
  pub off : d.off ≡ 0
  pub types : d.splitter.message_types ≡ map (λ m. m.typ) ms
  pub payloads :
      (k : ℕ) → slice d.splitter.buf d.splitter.message_starts k ≡ get_elem? (map body ms) k

delivered : List Message → Decoder
delivered ms = record { splitter = deliver empty ms; off = 0 }

delivered-Holds : (ms : List Message) → Holds (delivered ms) ms
unfolding delivered
delivered-Holds ms =
    let (a, b, c) = deliver_fields ms empty in
    record {
      off = refl;
      types = c;
      payloads = λ k. ap₂ (λ buf starts. slice buf starts k) a b ∙ slice-bodies ms [] k;
    }

module _ (c : Compression) where
  finish_lem :
      (ms : List Message)
      → finish c.deflate (write_messages (Encoder.new []) ms) ≡ 0 ∷ c.deflate (stream ms)
  unfolding finish Encoder.new
  finish_lem ms =
      ap₂ (λ out raw. out ++ c.deflate raw) (out-write_messages ms (Encoder.new []))
        (raw-write_messages ms (Encoder.new []))

  decompress_lem :
      (ms : List Message)
      → Whole (c.chunks (stream ms))
      → decompress c.inflate empty (c.deflate (stream ms)) ≡ ok (deliver empty ms)
  decompress_lem ms w =
      rw (c.inflate-deflate (stream ms), decompress)
        (ok_of_get_ok (write_all empty (c.chunks (stream ms))) (deliver empty ms) (
          write_all-run (c.chunks (stream ms)) empty w
          ∙ ap (λ bs. bind (run (reading empty) bs) close) (c.flatten-chunks (stream ms))
          ∙ ap (λ o. bind o close) (run-stream ms empty)))

  new-single :
      (x : List ℕ)
      → Decoder.new c.inflate (0 ∷ x)
        ≡ (decompress c.inflate empty x >>= λ s. ok (record { splitter = s; off = 0 }))
  unfolding Decoder.new
  new-single x = refl

  -- What one encoder wrote, decoded: with chunks that cut no header from its byte the decoder holds
  -- the messages that were written, each type with its payload unescaped and whole.
  pub new-finish :
      (ms : List Message)
      → Whole (c.chunks (stream ms))
      → (d : Decoder) × (Decoder.new c.inflate
            (finish c.deflate (write_messages (Encoder.new []) ms))
          ≡ ok d)
        × Holds d ms
  unfolding delivered
  new-finish ms w = (
    delivered ms,
    ap (Decoder.new c.inflate) (finish_lem ms)
        ∙ new-single (c.deflate (stream ms))
        ∙ ap (λ (m : Result Splitter). m >>= λ s. ok (record { splitter = s; off = 0 }))
            (decompress_lem ms w),
    delivered-Holds ms,
  )
