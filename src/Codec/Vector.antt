-- ===== src/Codec/Vector.antt =====
-- Vectors of encoded messages: `Encoder::join` against `Decoder::fill_splitter`.
use shamichan.Prelude.{
  ℕ, zero, suc, ◌+◌, ◌*◌, ◌/◌, ◌%◌, ◌^◌, ◌≤◌, ◌<◌, ◌≡◌, refl, sym, ap, ap₂, ◌∙◌, List, [], ◌∷◌,
  ◌++◌, Option, false, ltb, length, arith, All, append-nil, append_assoc, length-append, take_left,
  drop_left, fun_ext,
}
use shamichan.Codec.Encoder.{le_bytes, join_loop, join}
use shamichan.Codec.Splitter.{Splitter, Result, ok, ◌>>=◌}
use shamichan.Codec.Decoder.{fill_splitter, fill_vector, element, from_le_bytes}
use shamichan.Codec.Decoder.Fuel.{fill_splitter_fuel}

abbrev frames : List (List ℕ) → List ℕ
frames [] = []
frames (s ∷ encoded) = le_bytes (length s) ++ (s ++ frames encoded)

join_loop-frames :
    (encoded : List (List ℕ)) (w : List ℕ) → join_loop encoded w ≡ w ++ frames encoded
unfolding join_loop
join_loop-frames [] w = sym (append-nil w)
join_loop-frames (s ∷ encoded) w =
    join_loop-frames encoded ((w ++ le_bytes (length s)) ++ s)
    ∙ append_assoc (w ++ le_bytes (length s)) s (frames encoded)
    ∙ append_assoc w (le_bytes (length s)) (s ++ frames encoded)

from_le_bytes-le_bytes : (n : ℕ) → n < 2 ^ 31 → from_le_bytes (le_bytes n) ≡ n
unfolding from_le_bytes le_bytes
from_le_bytes-le_bytes n h =
    let e : n % 256
          + 2 ^ 8 * (n / 2 ^ 8 % 256)
          + 2 ^ 16 * (n / 2 ^ 16 % 256)
          + 2 ^ 24 * (n / 2 ^ 24 % 256)
        ≡ n =
      omega arith in
    rw e (ground arith)

long : (n : ℕ) → ltb (suc (suc (suc (suc n)))) 4 ≡ false
long n = ground arith

fits : (s rest : List ℕ) → ltb (length (s ++ rest)) (length s) ≡ false
fits s rest = ground (arith, length-append s rest)

join_lem : (encoded : List (List ℕ)) → join encoded ≡ 1 ∷ frames encoded
unfolding join
join_lem encoded = join_loop-frames encoded (1 ∷ [])

module _ (inflate : List ℕ → Option (List (List ℕ))) where
  -- The encoded messages decoded one after the other into the same splitter.
  abbrev pub fill_each : Splitter → List (List ℕ) → Result Splitter
  fill_each dst [] = ok dst
  fill_each dst (s ∷ encoded) =
      fill_splitter inflate (suc (length s)) dst s >>= λ d. fill_each d encoded

  unfold_vector :
      (fuel : ℕ) (dst : Splitter) (s rest : List ℕ)
      → fill_vector inflate (suc fuel) dst (le_bytes (length s) ++ (s ++ rest))
        ≡ element inflate
            (fill_splitter inflate fuel)
            (fill_vector inflate fuel)
            dst
            (le_bytes (length s) ++ (s ++ rest))
  unfolding fill_vector le_bytes
  unfold_vector fuel dst s rest = refl

  unfold_splitter :
      (dst : Splitter) (r : List ℕ)
      → fill_splitter inflate (suc (length (1 ∷ r))) dst (1 ∷ r)
        ≡ fill_vector inflate (length (1 ∷ r)) dst r
  unfolding fill_splitter
  unfold_splitter dst r = refl

  -- One round of the loop over a vector.
  element_lem :
      (f v : Splitter → List ℕ → Result Splitter) (dst : Splitter) (s rest : List ℕ)
      → length s < 2 ^ 31
      → element inflate f v dst (le_bytes (length s) ++ (s ++ rest)) ≡ (f dst s >>= λ d. v d rest)
  unfolding le_bytes
  element_lem f v dst s rest h =
      let len : from_le_bytes (le_bytes (length s)) ≡ length s =
        from_le_bytes-le_bytes (length s) h in
      rw (element, long (length (s ++ rest)), len, fits s rest)
        (ap₂ ◌>>=◌ (ap (f dst) (take_left s rest)) (fun_ext λ d. ap (v d) (drop_left s rest)))

  fill_vector-frames :
      (encoded : List (List ℕ)) (fuel : ℕ) (dst : Splitter)
      → All (λ s. length s < 2 ^ 31) encoded
      → length (frames encoded) ≤ fuel
      → fill_vector inflate fuel dst (frames encoded) ≡ fill_each dst encoded
  fill_vector-frames [] zero dst h k = unfold fill_vector in refl
  fill_vector-frames [] (suc fuel) dst h k = unfold fill_vector in refl
  fill_vector-frames (s ∷ encoded) zero dst h k = absurd (unfold le_bytes in omega arith)
  fill_vector-frames (s ∷ encoded) (suc fuel) dst (h, hs) k =
      let room : length s + length (frames encoded) + 3 ≤ fuel =
        unfold le_bytes in omega (arith, length-append s (frames encoded)) in
      unfold_vector fuel dst s (frames encoded)
      ∙ element_lem (fill_splitter inflate fuel) (fill_vector inflate fuel) dst s (frames encoded) h
      ∙ ap₂ ◌>>=◌
          (fill_splitter_fuel inflate fuel (suc (length s)) dst s (omega arith) (omega arith))
          (fun_ext λ d. fill_vector-frames encoded fuel d hs (omega arith))

  -- A joined vector decodes as its elements do in turn, into one splitter, with the first error of
  -- theirs, where each element is shorter than 2 ^ 31 bytes.
  pub fill_splitter-join :
      (dst : Splitter) (encoded : List (List ℕ))
      → All (λ s. length s < 2 ^ 31) encoded
      → fill_splitter inflate (suc (length (join encoded))) dst (join encoded)
        ≡ fill_each dst encoded
  fill_splitter-join dst encoded h =
      ap (λ r. fill_splitter inflate (suc (length r)) dst r) (join_lem encoded)
      ∙ unfold_splitter dst (frames encoded)
      ∙ fill_vector-frames encoded (length (1 ∷ frames encoded)) dst h (omega arith)
