-- ===== src/Feeds/Last5/Zero.antt =====
-- The smallest identifier of a `Last5` (server/src/feeds/thread/last_5.rs).
use shamichan.Prelude.{
  ℕ, zero, suc, ◌+◌, ◌≤◌, ◌≡◌, refl, ap, ◌∙◌, List, [], ◌∷◌, ◌++◌, ltb, take, drop, arith, subst,
  sym, Bool-cases, inl, inr,
}
use shamichan.Feeds.Last5.{Last5, set, insert_sorted, sort, new, min, max, place, push, push_all}

-- The first slot holds zero, and a slot behind it is the next to be written.
pub record HasZero (s : Last5) : Type 0 where
  pub used : 1 ≤ s.len
  pub rest : List ℕ
  pub first : s.arr ≡ 0 ∷ rest

insert_zero : (xs : List ℕ) → insert_sorted 0 xs ≡ 0 ∷ xs
insert_zero [] = refl
insert_zero (x ∷ xs) = ground arith

place-HasZero : (len : ℕ) (rest : List ℕ) (id : ℕ) → 1 ≤ len → HasZero (place len (0 ∷ rest) id)
place-HasZero zero rest id h = absurd (omega arith)
place-HasZero (suc len) rest id h = record {
  used = h;
  rest = sort (take (suc len) (set rest len id)) ++ drop (suc len) (set rest len id);
  first =
      ap (λ l. l ++ drop (suc len) (set rest len id))
        (insert_zero (sort (take (suc len) (set rest len id))));
}

place_eq :
    (len : ℕ) (arr rest : List ℕ) (id : ℕ) → 1 ≤ len → arr ≡ 0 ∷ rest → HasZero (place len arr id)
place_eq len arr rest id h e =
    subst (λ l. HasZero (place len l id)) (sym e) (place-HasZero len rest id h)

push-HasZero : (s : Last5) (id : ℕ) → HasZero s → HasZero (push s id)
unfolding push
push-HasZero s id h = elim (Bool-cases (ltb s.len 5)) [
  | inl e ↦ rw e (place_eq (s.len + 1) s.arr h.rest id (omega (arith, h.used)) h.first)
  | inr e ↦ rw e (elim (Bool-cases (ltb (max s) id)) [
    | inl c ↦ rw c h
    | inr c ↦ rw c (place_eq s.len s.arr h.rest id h.used h.first)
  ])
]

sorted_first : (first id : ℕ) → sort (first ∷ 0 ∷ id ∷ []) ≡ 0 ∷ insert_sorted first (id ∷ [])
sorted_first zero id = ap (insert_sorted 0) (insert_zero (id ∷ [])) ∙ ground arith
sorted_first (suc first) id = ap (insert_sorted (suc first)) (insert_zero (id ∷ [])) ∙ ground arith

first_push : (first id : ℕ) → HasZero (push (new first) id)
unfolding push new
first_push first id = record {
  used = omega arith;
  rest = insert_sorted first (id ∷ []) ++ 0 ∷ 0 ∷ 0 ∷ [];
  first = ap (λ l. l ++ 0 ∷ 0 ∷ 0 ∷ []) (sorted_first first id);
}

push_all-HasZero : (ids : List ℕ) (s : Last5) → HasZero s → HasZero (push_all s ids)
unfolding push_all
push_all-HasZero [] s h = h
push_all-HasZero (id ∷ ids) s h = push_all-HasZero ids (push s id) (push-HasZero s id h)

-- After the first push the smallest identifier is zero, whatever identifiers were and are pushed: the
-- push leaves a slot between the first identifier and the new one unwritten.
pub min-push_all : (first id : ℕ) (ids : List ℕ) → min (push_all (new first) (id ∷ ids)) ≡ 0
unfolding min push_all
min-push_all first id ids =
    let h = push_all-HasZero ids (push (new first) id) (first_push first id) in rw h.first refl
