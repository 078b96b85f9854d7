-- ===== src/Codec/Decoder/Fuel.antt =====
-- The decoder's loops end: the length of the buffer is fuel enough.
use shamichan.Prelude.{
  false, ℕ, zero, suc, ◌≤◌, ◌<◌, ◌≡◌, ◌≢◌, refl, ap, ap₂, List, [], ◌∷◌, Option, if◌then◌else◌,
  length, take, drop, arith, Bool-cases, Option-cases, inl, inr, ◌==◌, ltb, length-take,
  length-drop, fun_ext,
}
use shamichan.Codec.Splitter.{
  Splitter, Result, ok, err, ◌>>=◌, invalid_header_byte, stuck, write, empty,
}
use shamichan.Codec.Splitter.Fuel.{Ends, Ends-bind, write-Ends}
use shamichan.Codec.Decoder.{
  Decoder, fill_splitter, fill_vector, branch, element, decompress, from_le_bytes, write_all, new,
}

abbrev Fill : Type 0
Fill = Splitter → List ℕ → Result Splitter

module _ (inflate : List ℕ → Option (List (List ℕ))) where
  branch_ext :
      (v w : Fill) (dst : Splitter) (b : ℕ) (rest : List ℕ)
      → v dst rest ≡ w dst rest
      → branch inflate v dst b rest ≡ branch inflate w dst b rest
  branch_ext v w dst b rest = ap (λ x.
      if b == 0
      then decompress inflate dst rest
      else if b == 1
      then x
      else err (invalid_header_byte b))

  element_ext :
      (f g v w : Fill) (dst : Splitter) (r : List ℕ)
      → (ltb (length r) 4 ≡ false
          → let len = from_le_bytes (take 4 r) in
            (f dst (take len (drop 4 r)) ≡ g dst (take len (drop 4 r)))
            × ((s : Splitter) → v s (drop len (drop 4 r)) ≡ w s (drop len (drop 4 r))))
      → element inflate f v dst r ≡ element inflate g w dst r
  element_ext f g v w dst r h = elim (Bool-cases (ltb (length r) 4)) [
    | inl e ↦ rw e
    | inr e ↦
        let len = from_le_bytes (take 4 r) in
        let (p, q) = h e in
        rw e (elim (Bool-cases (ltb (length (drop 4 r)) len)) [
          | inl c ↦ rw c
          | inr c ↦ rw c (ap₂ ◌>>=◌ p (fun_ext q))
        ])
  ]

  mutual
    unfolding fill_splitter

    pub fill_splitter_fuel :
        (f g : ℕ) (dst : Splitter) (r : List ℕ)
        → length r < f
        → length r < g
        → fill_splitter inflate f dst r ≡ fill_splitter inflate g dst r
    fill_splitter_fuel zero g dst r h k = absurd (omega arith)
    fill_splitter_fuel (suc f) zero dst r h k = absurd (omega arith)
    fill_splitter_fuel (suc f) (suc g) dst [] h k = refl
    fill_splitter_fuel (suc f) (suc g) dst (b ∷ rest) h k =
        branch_ext (fill_vector inflate f) (fill_vector inflate g) dst b rest
          (fill_vector_fuel f g dst rest (omega arith) (omega arith))

    fill_vector_fuel :
        (f g : ℕ) (dst : Splitter) (r : List ℕ)
        → length r ≤ f
        → length r ≤ g
        → fill_vector inflate f dst r ≡ fill_vector inflate g dst r
    fill_vector_fuel zero g dst [] h k = refl
    fill_vector_fuel (suc f) g dst [] h k = refl
    fill_vector_fuel zero g dst (b ∷ bs) h k = absurd (omega arith)
    fill_vector_fuel (suc f) zero dst (b ∷ bs) h k = absurd (omega arith)
    fill_vector_fuel (suc f) (suc g) dst (b ∷ bs) h k =
        element_ext (fill_splitter inflate f) (fill_splitter inflate g) (fill_vector inflate f)
          (fill_vector inflate g) dst (b ∷ bs)
          λ e.
            let len = from_le_bytes (take 4 (b ∷ bs)) in
            let r = drop 4 (b ∷ bs) in
            let room : 4 ≤ suc (length bs) = ground arith in
            (
              fill_splitter_fuel f g dst (take len r)
                  (omega (arith, length-take len r, length-drop 4 (b ∷ bs)))
                  (omega (arith, length-take len r, length-drop 4 (b ∷ bs))),
              λ s.
                  fill_vector_fuel f g s (drop len r)
                    (omega (arith, length-drop len r, length-drop 4 (b ∷ bs)))
                    (omega (arith, length-drop len r, length-drop 4 (b ∷ bs))),
            )

  write_all-Ends : (cs : List (List ℕ)) (s : Splitter) → Ends (write_all s cs)
  unfolding write_all
  write_all-Ends [] s = λ e. cc
  write_all-Ends (c ∷ cs) s =
      Ends-bind (write s c) (λ s'. write_all s' cs) (write-Ends s c) (λ s'. write_all-Ends cs s')

  decompress-Ends : (dst : Splitter) (rest : List ℕ) → Ends (decompress inflate dst rest)
  decompress-Ends dst rest = elim (Option-cases (inflate rest)) [
    | inl e ↦ rw (e, decompress) (λ x. cc)
    | inr (cs, e) ↦ rw (e, decompress) (write_all-Ends cs dst)
  ]

  branch-Ends :
      (v : Fill) (dst : Splitter) (b : ℕ) (rest : List ℕ)
      → Ends (v dst rest)
      → Ends (branch inflate v dst b rest)
  branch-Ends v dst b rest h = elim (Bool-cases (b == 0)) [
    | inl e ↦ rw e (decompress-Ends dst rest)
    | inr e ↦ rw e (elim (Bool-cases (b == 1)) [ inl c ↦ rw c h | inr c ↦ rw c (λ x. cc) ])
  ]

  element-Ends :
      (f v : Fill) (dst : Splitter) (r : List ℕ)
      → (ltb (length r) 4 ≡ false
          → let len = from_le_bytes (take 4 r) in
            Ends (f dst (take len (drop 4 r)))
            × ((s : Splitter) → Ends (v s (drop len (drop 4 r)))))
      → Ends (element inflate f v dst r)
  element-Ends f v dst r h = elim (Bool-cases (ltb (length r) 4)) [
    | inl e ↦ rw e (λ x. cc)
    | inr e ↦
        let len = from_le_bytes (take 4 r) in
        let (p, q) = h e in
        rw e (elim (Bool-cases (ltb (length (drop 4 r)) len)) [
          | inl c ↦ rw c (λ x. cc)
          | inr c ↦ rw c (Ends-bind (f dst (take len (drop 4 r))) _ p q)
        ])
  ]

  mutual
    unfolding fill_splitter

    fill_splitter-Ends :
        (f : ℕ) (dst : Splitter) (r : List ℕ) → length r < f → Ends (fill_splitter inflate f dst r)
    fill_splitter-Ends zero dst r h = absurd (omega arith)
    fill_splitter-Ends (suc f) dst [] h = λ e. cc
    fill_splitter-Ends (suc f) dst (b ∷ rest) h =
        branch-Ends (fill_vector inflate f) dst b rest (fill_vector-Ends f dst rest (omega arith))

    fill_vector-Ends :
        (f : ℕ) (dst : Splitter) (r : List ℕ) → length r ≤ f → Ends (fill_vector inflate f dst r)
    fill_vector-Ends zero dst [] h = λ e. cc
    fill_vector-Ends (suc f) dst [] h = λ e. cc
    fill_vector-Ends zero dst (b ∷ bs) h = absurd (omega arith)
    fill_vector-Ends (suc f) dst (b ∷ bs) h =
        element-Ends (fill_splitter inflate f) (fill_vector inflate f) dst (b ∷ bs) λ e.
          let len = from_le_bytes (take 4 (b ∷ bs)) in
          let r = drop 4 (b ∷ bs) in
          let room : 4 ≤ suc (length bs) = ground arith in
          (
            fill_splitter-Ends f dst (take len r)
                (omega (arith, length-take len r, length-drop 4 (b ∷ bs))),
            λ s.
                fill_vector-Ends f s (drop len r)
                  (omega (arith, length-drop len r, length-drop 4 (b ∷ bs))),
          )

  finish-Ends :
      (m : Result Splitter) (f : Splitter → Decoder) → Ends m → (m >>= λ s. ok (f s)) ≢ err stuck
  finish-Ends (ok s) f h x = cc
  finish-Ends (err e) f h x = h (cc)

  -- Decoding ends on every buffer, however its vectors are nested: it never runs out of fuel.
  pub new-Ends : (r : List ℕ) → new inflate r ≢ err stuck
  unfolding new
  new-Ends r =
      finish-Ends (fill_splitter inflate (suc (length r)) empty r) _
        (fill_splitter-Ends (suc (length r)) empty r (omega arith))
