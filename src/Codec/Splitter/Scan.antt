-- ===== src/Codec/Splitter/Scan.antt =====
-- The splitter as an automaton that reads one byte at a time.
use shamichan.Prelude.{
  ℕ, zero, suc, ◌+◌, ◌-◌, ◌≤◌, ◌≡◌, refl, fun_ext, sym, ap, ◌∙◌, List, [], ◌∷◌, ◌++◌, Option, none,
  some, Bool, true, false, if◌then◌else◌, ◌==◌, length, take, drop, get_elem?, append-nil,
  append_assoc, Bool-cases, Option-cases, inl, inr, arith, eqb→eq, length-append,
}
use mathlib.Core.Option
use shamichan.Codec.MessageType.{MessageType, from_u8}
use shamichan.Codec.Encoder.{header, escape, position}
use shamichan.Codec.Splitter.{
  Splitter, Result, ok, err, ◌>>=◌, extend, mark, after_header, splitter_round, splitter_loop,
  write,
}

-- The state between two bytes; `pending` after a header byte.
pub record Scan : Type 0 where
  pub pending : Bool
  pub splitter : Splitter

abbrev pub reading : Splitter → Scan
reading s = record { pending = false; splitter = s }

-- A message of type `t` starts at the end of the buffer.
abbrev pub start : Splitter → MessageType → Splitter
start s t = record {
  buf = s.buf;
  message_starts = s.message_starts ++ length s.buf ∷ [];
  message_types = s.message_types ++ t ∷ [];
}

abbrev pub started : Splitter → Option MessageType → Option Scan
started s none = none
started s (some t) = some (reading (start s t))

abbrev pub step : Bool → Splitter → ℕ → Option Scan
step false s b =
    if b == header
    then some (record { pending = true; splitter = s })
    else some (reading (extend s (b ∷ [])))
step true s b =
    if b == escape then some (reading (extend s (header ∷ []))) else started s (from_u8 b)

abbrev pub bind : {A B : Type 0} → Option A → (A → Option B) → Option B
bind none f = none
bind (some a) f = f a

unfoldable pub run : Scan → List ℕ → Option Scan
run st [] = some st
run st (b ∷ bs) = bind (step st.pending st.splitter b) (λ next. run next bs)

-- A write must not end behind a lone header byte.
abbrev pub close : Scan → Option Splitter
close st = if st.pending then none else some st.splitter

abbrev pub get_ok : Result Splitter → Option Splitter
get_ok (ok s) = some s
get_ok (err e) = none

bind_assoc :
    {A B C : Type 0} (o : Option A) (f : A → Option B) (g : B → Option C)
    → bind o (λ a. bind (f a) g) ≡ bind (bind o f) g
bind_assoc none f g = refl
bind_assoc (some a) f g = refl

pub run-append :
    (xs ys : List ℕ) (st : Scan) → run st (xs ++ ys) ≡ bind (run st xs) (λ next. run next ys)
unfolding run
run-append [] ys st = refl
run-append (x ∷ xs) ys st =
    ap (bind (step st.pending st.splitter x)) (fun_ext (λ next. run-append xs ys next))
    ∙ bind_assoc (step st.pending st.splitter x) (λ next. run next xs) (λ next. run next ys)

mark_shift :
    (s : Splitter) (b : ℕ) (bs : List ℕ) (i : ℕ) (t : MessageType)
    → mark s (b ∷ bs) (suc i) t ≡ mark (extend s (b ∷ [])) bs i t
mark_shift s b bs i t =
    let e : length s.buf + suc i ≡ length (s.buf ++ b ∷ []) + i =
      omega (arith, length-append s.buf (b ∷ [])) in
    λ k. record {
      buf = sym (append_assoc s.buf (b ∷ []) (take i bs)) k;
      message_starts = s.message_starts ++ e k ∷ [];
      message_types = s.message_types ++ t ∷ [];
    }

extend_shift :
    (s : Splitter) (b : ℕ) (bs : List ℕ) → extend s (b ∷ bs) ≡ extend (extend s (b ∷ [])) bs
extend_shift s b bs = ap (λ v. record s { buf = v }) (sym (append_assoc s.buf (b ∷ []) bs))

after_header_shift :
    (s : Splitter) (b : ℕ) (bs : List ℕ) (i : ℕ) (x : Option ℕ) (k : Splitter → Result Splitter)
    → get_ok (after_header s (b ∷ bs) (suc i) x >>= k)
      ≡ get_ok (after_header (extend s (b ∷ [])) bs i x >>= k)
unfolding after_header
after_header_shift s b bs i none k = refl
after_header_shift s b bs i (some n) k = elim (Bool-cases (n == escape)) [
  | inl e ↦ rw e (ap (λ v. get_ok (k v)) (extend_shift s b (take (suc i) bs)))
  | inr e ↦ elim (Option-cases (from_u8 n)) [
    | inl m ↦ rw (e, m)
    | inr (t, m) ↦ rw (e, m) (ap (λ v. get_ok (k v)) (mark_shift s b bs i t))
  ]
]

last_shift : (i n : ℕ) → (suc i == suc (suc n) - 1) ≡ (i == suc n - 1)
last_shift i n = ground arith

-- A byte that is no header joins the run that the round copies.
round_shift :
    (s : Splitter) (b c : ℕ) (bs : List ℕ) (p : Option ℕ)
    (rest : Splitter → List ℕ → Result Splitter)
    → get_ok (splitter_round s (b ∷ c ∷ bs) (Option.map suc p) rest)
      ≡ get_ok (splitter_round (extend s (b ∷ [])) (c ∷ bs) p rest)
round_shift s b c bs none rest = ap some (extend_shift s b (c ∷ bs))
round_shift s b c bs (some i) rest = elim (Bool-cases (i == suc (length bs) - 1)) [
  | inl e ↦ rw (last_shift i (length bs), e)
  | inr e ↦
      rw (last_shift i (length bs), e)
        (after_header_shift s b (c ∷ bs) i (get_elem? bs i)
          (λ s'. rest s' (drop (suc (suc i)) (c ∷ bs))))
]

plain_byte :
    (fuel : ℕ) (s : Splitter) (b : ℕ) (bs : List ℕ)
    → (b == header) ≡ false
    → get_ok (splitter_loop (suc fuel) s (b ∷ bs))
      ≡ get_ok (splitter_loop (suc fuel) (extend s (b ∷ [])) bs)
unfolding splitter_loop position
plain_byte fuel s b [] e = rw (e, splitter_loop)
plain_byte fuel s b (c ∷ bs) e =
    rw (e, splitter_loop) (round_shift s b c bs (position (c ∷ bs)) (splitter_loop fuel))

mark_zero : (s : Splitter) (buf : List ℕ) (t : MessageType) → mark s buf 0 t ≡ start s t
mark_zero s buf t =
    let e : length s.buf + 0 ≡ length s.buf = omega arith in
    λ k. record {
      buf = append-nil s.buf k;
      message_starts = s.message_starts ++ e k ∷ [];
      message_types = s.message_types ++ t ∷ [];
    }

not_last : (n : ℕ) → (0 == suc (suc n) - 1) ≡ false
not_last n = ground arith

header_byte :
    (fuel : ℕ) (s : Splitter) (b n : ℕ) (bs : List ℕ)
    → (b == header) ≡ true
    → get_ok (splitter_loop (suc fuel) s (b ∷ n ∷ bs))
      ≡ bind (step true s n) (λ next. get_ok (splitter_loop fuel next.splitter bs))
unfolding splitter_loop position
header_byte fuel s b n bs e =
    rw (e, splitter_loop, not_last (length bs))
      (elim (Bool-cases (n == escape)) [
        | inl h ↦
            rw h (ap (λ v. get_ok (splitter_loop fuel (extend s (v ∷ [])) bs)) (eqb→eq b header e))
        | inr h ↦ elim (Option-cases (from_u8 n)) [
          | inl m ↦ rw (h, m)
          | inr (t, m) ↦
              rw (h, m) (ap (λ v. get_ok (splitter_loop fuel v bs)) (mark_zero s (b ∷ n ∷ bs) t))
        ]
      ])

-- From the bytes that the automaton reads behind a header byte on.
after_step :
    (s : Splitter) (n : ℕ) (f : Splitter → Option Splitter) (g : Scan → Option Splitter)
    → ((s' : Splitter) → f s' ≡ g (reading s'))
    → bind (step true s n) (λ next. f next.splitter) ≡ bind (step true s n) g
after_step s n f g h = elim (Bool-cases (n == escape)) [
  | inl e ↦ rw e (h _)
  | inr e ↦ elim (Option-cases (from_u8 n)) [ inl m ↦ rw (e, m) | inr (t, m) ↦ rw (e, m) (h _) ]
]

splitter_loop-run :
    (buf : List ℕ) (fuel : ℕ) (s : Splitter)
    → length buf ≤ fuel
    → get_ok (splitter_loop fuel s buf) ≡ bind (run (reading s) buf) close
splitter_loop-run [] fuel s h = unfold splitter_loop run in refl
splitter_loop-run (b ∷ bs) zero s h = absurd (omega arith)
splitter_loop-run (b ∷ []) (suc fuel) s h = elim (Bool-cases (b == header)) [
  | inl e ↦ unfold splitter_loop run position in rw (e, splitter_loop, run)
  | inr e ↦ plain_byte fuel s b [] e ∙ unfold splitter_loop run in rw (e, run)
]
splitter_loop-run (b ∷ n ∷ bs) (suc fuel) s h = elim (Bool-cases (b == header)) [
  | inl e ↦
      header_byte fuel s b n bs e
      ∙ after_step s n (λ s'. get_ok (splitter_loop fuel s' bs)) (λ next. bind (run next bs) close)
          (λ s'. splitter_loop-run bs fuel s' (omega arith))
      ∙ bind_assoc (step true s n) (λ next. run next bs) close
      ∙ unfold run in rw (e, run)
  | inr e ↦
      plain_byte fuel s b (n ∷ bs) e
      ∙ splitter_loop-run (n ∷ bs) (suc fuel) (extend s (b ∷ [])) (omega arith)
      ∙ unfold run in rw (e, run)
]

-- One call of `write` gives what the automaton gives on the same bytes: it succeeds exactly when the
-- automaton reads them all and does not end behind a lone header byte, and then with its splitter.
pub write-run :
    (s : Splitter) (buf : List ℕ) → get_ok (write s buf) ≡ bind (run (reading s) buf) close
unfolding write
write-run s buf = splitter_loop-run buf (length buf) s (omega arith)
