-- ===== src/Codec/Splitter/Fuel.antt =====
-- The splitter's loop ends: a round for each byte is fuel enough.
use shamichan.Prelude.{
  ℕ, zero, suc, ◌-◌, ◌≤◌, ◌≢◌, List, [], ◌∷◌, Option, none, some, length, drop, get_elem?, arith,
  Bool-cases, Option-cases, inl, inr, ◌==◌, length-drop,
}
use shamichan.Codec.MessageType.{from_u8}
use shamichan.Codec.Encoder.{escape, position}
use shamichan.Codec.Splitter.{
  Splitter, Result, ok, err, ◌>>=◌, stuck, after_header, splitter_round, splitter_loop, write,
}

-- The call did not run out of fuel.
abbrev pub Ends : Result Splitter → Type 0
Ends r = r ≢ err stuck

pub Ends-bind :
    (m : Result Splitter) (f : Splitter → Result Splitter)
    → Ends m
    → ((s : Splitter) → Ends (f s))
    → Ends (m >>= f)
Ends-bind (ok s) f h k = k s
Ends-bind (err e) f h k = h

after_header-Ends :
    (s : Splitter) (buf : List ℕ) (i : ℕ) (x : Option ℕ) → Ends (after_header s buf i x)
unfolding after_header
after_header-Ends s buf i none = λ e. cc
after_header-Ends s buf i (some n) = elim (Bool-cases (n == escape)) [
  | inl h ↦ rw h (λ e. cc)
  | inr h ↦ elim (Option-cases (from_u8 n)) [
    | inl m ↦ rw (h, m) (λ e. cc)
    | inr (t, m) ↦ rw (h, m) (λ e. cc)
  ]
]

round-Ends :
    (s : Splitter) (buf : List ℕ) (p : Option ℕ) (rest : Splitter → List ℕ → Result Splitter)
    → ((s' : Splitter) (i : ℕ) → Ends (rest s' (drop (suc (suc i)) buf)))
    → Ends (splitter_round s buf p rest)
round-Ends s buf none rest h = λ e. cc
round-Ends s buf (some i) rest h = elim (Bool-cases (i == length buf - 1)) [
  | inl e ↦ rw e (λ x. cc)
  | inr e ↦ rw e (
      Ends-bind (after_header s buf i (get_elem? buf (suc i))) _
        (after_header-Ends s buf i (get_elem? buf (suc i))) (λ s'. h s' i))
]

splitter_loop-Ends :
    (fuel : ℕ) (s : Splitter) (buf : List ℕ) → length buf ≤ fuel → Ends (splitter_loop fuel s buf)
unfolding splitter_loop
splitter_loop-Ends zero s [] h = λ e. cc
splitter_loop-Ends (suc fuel) s [] h = λ e. cc
splitter_loop-Ends zero s (b ∷ bs) h = absurd (omega arith)
splitter_loop-Ends (suc fuel) s (b ∷ bs) h =
    round-Ends s (b ∷ bs) (position (b ∷ bs)) (splitter_loop fuel) λ s' i.
      splitter_loop-Ends fuel s' (drop (suc (suc i)) (b ∷ bs))
        (omega (arith, length-drop (suc i) bs))

-- No write runs out of fuel.
pub write-Ends : (s : Splitter) (buf : List ℕ) → Ends (write s buf)
unfolding write
write-Ends s buf = splitter_loop-Ends (length buf) s buf (omega arith)
