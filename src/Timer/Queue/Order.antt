-- ===== src/Timer/Queue/Order.antt =====
-- The queue stays in order, and loses and makes up nothing.
use shamichan.Prelude.{
  length, ℕ, ◌≤◌, ◌≡◌, refl, List, [], ◌∷◌, Option, none, some, Bool, ltb, arith, Bool-cases, inl,
  inr,
}
use mathlib.Core.List.{Perm}
use mathlib.Core.List.Perm
use shamichan.Timer.Queue.{insert, peek}

module _ {ℓ} {T : Type ℓ} (key : T → ℕ) where
  -- The order that compares values by `key`.
  abbrev pub by_key : T → T → Bool
  by_key a b = ltb (key a) (key b)

  abbrev pub AtLeast : ℕ → List T → Type 0
  AtLeast k [] = Unit {0}
  AtLeast k (x ∷ xs) = (k ≤ key x) × AtLeast k xs

  abbrev pub IsSorted : List T → Type 0
  IsSorted [] = Unit {0}
  IsSorted (x ∷ xs) = AtLeast (key x) xs × IsSorted xs

  AtLeast_mono : (j k : ℕ) (xs : List T) → j ≤ k → AtLeast k xs → AtLeast j xs
  AtLeast_mono j k [] h a = tt
  AtLeast_mono j k (x ∷ xs) h (a, b) = (omega arith, AtLeast_mono j k xs h b)

  insert-AtLeast :
      (k : ℕ) (xs : List T) (v : T) → k ≤ key v → AtLeast k xs → AtLeast k (insert by_key xs v)
  unfolding insert
  insert-AtLeast k [] v h a = (h, tt)
  insert-AtLeast k (x ∷ xs) v h (a, b) = elim (Bool-cases (by_key v x)) [
    | inl e ↦ rw e (h, (a, b))
    | inr e ↦ rw e (a, insert-AtLeast k xs v h b)
  ]

  pub insert-IsSorted : (xs : List T) (v : T) → IsSorted xs → IsSorted (insert by_key xs v)
  unfolding insert
  insert-IsSorted [] v s = (tt, tt)
  insert-IsSorted (x ∷ xs) v (a, s) = elim (Bool-cases (by_key v x)) [
    | inl e ↦
        let lt : key v ≤ key x = ground arith in
        rw e ((lt, AtLeast_mono (key v) (key x) xs lt a), (a, s))
    | inr e ↦
        let ge : key x ≤ key v = ground arith in
        rw e (insert-AtLeast (key x) xs v ge a, insert-IsSorted xs v s)
  ]

  pub insert-perm : (xs : List T) (v : T) → Perm (insert by_key xs v) (v ∷ xs)
  unfolding insert
  insert-perm [] v = Perm.refl (v ∷ [])
  insert-perm (x ∷ xs) v = elim (Bool-cases (by_key v x)) [
    | inl e ↦ rw e (Perm.refl (v ∷ x ∷ xs))
    | inr e ↦ rw e (Perm.trans (Perm.cons x (insert-perm xs v)) (Perm.swap v x xs))
  ]

  -- What `peek` may give: none of an empty queue, otherwise a value that comes before no other.
  abbrev pub IsFirst : Option T → List T → Type 0
  IsFirst none xs = length xs ≡ 0
  IsFirst (some x) xs = AtLeast (key x) xs

  -- Inserting into a sorted queue gives a sorted queue of the same values and the new one, and `peek`
  -- gives a value of it that comes before no other.
  pub insert_lem :
      (xs : List T) (v : T)
      → IsSorted xs
      → IsSorted (insert by_key xs v)
        × Perm (insert by_key xs v) (v ∷ xs)
        × IsFirst (peek (insert by_key xs v)) (insert by_key xs v)
  unfolding peek
  insert_lem xs v s =
      let sorted = insert-IsSorted xs v s in
      (sorted, insert-perm xs v, first (insert by_key xs v) sorted)
    where
      first : (ys : List T) → IsSorted ys → IsFirst (peek ys) ys
      first [] t = refl
      first (y ∷ ys) (a, t) = (omega arith, a)
