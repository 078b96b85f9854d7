-- ===== src/Collections/SetMap.antt =====
-- `SetMap` of common/src/util.rs.
use shamichan.Prelude.{
  ◌≡◌, ◌≢◌, refl, [], ◌∷◌, Option, none, some, arith, Bool, true, false, if◌then◌else◌,
  Option-cases, inl, inr, ◌&&◌,
}
use shamichan.Prelude.Eq.{Eq, eq}
use shamichan.Collections.HashMap
use shamichan.Collections.HashMap.{HashMap}
use shamichan.Collections.HashSet
use shamichan.Collections.HashSet.{HashSet}

abbrev pub SetMap {ℓ κ} : Type ℓ → Type κ → Type (ℓ ⊔ κ)
SetMap K V = HashMap K (HashSet V)

abbrev pub or_default {ℓ} : {V : Type ℓ} → Option (HashSet V) → HashSet V
or_default none = []
or_default (some s) = s

module _ {ℓ} {V : Type ℓ} ⦃ev : Eq V⦄ where
  abbrev pub in_set : Option (HashSet V) → V → Bool
  in_set none v = false
  in_set (some s) v = HashSet.contains s v

  or_default-in_set :
      (o : Option (HashSet V)) (v : V) → HashSet.contains (or_default o) v ≡ in_set o v
  unfolding HashSet.contains
  or_default-in_set none v = refl
  or_default-in_set (some s) v = refl

  insert_ne_empty : (s : HashSet V) (v : V) → HashSet.insert s v ≢ []
  unfolding HashSet.insert
  insert_ne_empty [] v = ground arith
  insert_ne_empty (w ∷ s) v = ground arith

module _ {ℓ κ} {K : Type ℓ} {V : Type κ} ⦃ek : Eq K⦄ ⦃ev : Eq V⦄ where
  unfoldable pub insert : SetMap K V → K → V → SetMap K V
  insert m k v = HashMap.insert m k (HashSet.insert (or_default (HashMap.get m k)) v)

  -- `if set.is_empty() { self.0.remove(k); }`
  abbrev pub put_back : SetMap K V → K → HashSet V → SetMap K V
  put_back m k set = if HashSet.is_empty set then HashMap.remove m k else HashMap.insert m k set

  abbrev pub remove_from : SetMap K V → K → V → Option (HashSet V) → SetMap K V × Bool
  remove_from m k v none = (m, false)
  remove_from m k v (some set) = (put_back m k (HashSet.remove set v), HashSet.contains set v)

  -- The map after the call, and whether the value was there.
  unfoldable pub remove : SetMap K V → K → V → SetMap K V × Bool
  remove m k v = remove_from m k v (HashMap.get m k)

  -- The relation that the map stands for.
  unfoldable pub relates : SetMap K V → K → V → Bool
  relates m k v = in_set (HashMap.get m k) v

  -- No key keeps an empty set.
  abbrev pub HasNoEmpty : SetMap K V → Type (ℓ ⊔ κ)
  HasNoEmpty m = (k : K) → HashMap.get m k ≢ some []

  -- `insert` adds the pair to the relation and changes nothing else of it.
  pub relates-insert :
      (m : SetMap K V) (k : K) (v : V) (j : K) (u : V)
      → relates (insert m k v) j u ≡ (if eq k j && eq v u then true else relates m j u)
  unfolding relates insert
  relates-insert m k v j u =
      let set = or_default (HashMap.get m k) in
      ground (
        arith,
        ek.eq_iff k j,
        HashMap.get-insert m k j (HashSet.insert set v),
        HashSet.contains-insert set v u,
        or_default-in_set (HashMap.get m k) u,
      )

  -- The relation when a whole set is read, removed or written.
  pub relates-get :
      (m : SetMap K V) (k : K) (set : HashSet V) (u : V)
      → HashMap.get m k ≡ some set
      → relates m k u ≡ HashSet.contains set u
  unfolding relates
  relates-get m k set u e = rw e

  pub relates-get-none :
      (m : SetMap K V) (k : K) (u : V) → HashMap.get m k ≡ none → relates m k u ≡ false
  unfolding relates
  relates-get-none m k u e = rw e

  pub relates_drop :
      (m : SetMap K V) (k j : K) (u : V)
      → relates (HashMap.remove m k) j u ≡ (if eq k j then false else relates m j u)
  unfolding relates
  relates_drop m k j u = ground (arith, HashMap.get-remove m k j)

  pub relates_put :
      (m : SetMap K V) (k : K) (set : HashSet V) (j : K) (u : V)
      → relates (HashMap.insert m k set) j u
        ≡ (if eq k j then HashSet.contains set u else relates m j u)
  unfolding relates
  relates_put m k set j u = ground (arith, HashMap.get-insert m k j set)

  relates-put_back :
      (m : SetMap K V) (k : K) (set : HashSet V) (j : K) (u : V)
      → relates (put_back m k set) j u ≡ (if eq k j then HashSet.contains set u else relates m j u)
  unfolding relates
  relates-put_back m k set j u =
      ground (
        arith,
        HashMap.get-insert m k j set,
        HashMap.get-remove m k j,
        HashSet.contains_empty set u,
      )

  -- `remove` takes the pair from the relation, changes nothing else of it, and tells whether the
  -- pair was there.
  pub relates-remove :
      (m : SetMap K V) (k : K) (v : V) (j : K) (u : V)
      → (relates (remove m k v).0 j u ≡ (if eq k j && eq v u then false else relates m j u))
        × ((remove m k v).1 ≡ relates m k v)
  unfolding remove relates
  relates-remove m k v j u = elim (Option-cases (HashMap.get m k)) [
    | inl e ↦ rw (e, remove) (ground (arith, ek.eq_iff k j), refl)
    | inr (set, e) ↦
        let rest = HashSet.remove set v in
        rw (e, remove)
          (
            ground (
              arith,
              ek.eq_iff k j,
              relates-put_back m k rest j u,
              HashSet.contains-remove set v u,
            ),
            refl,
          )
  ]

  insert-HasNoEmpty : (m : SetMap K V) (k : K) (v : V) → HasNoEmpty m → HasNoEmpty (insert m k v)
  unfolding insert
  insert-HasNoEmpty m k v h j =
      let set = HashSet.insert (or_default (HashMap.get m k)) v in
      ground
        (arith, HashMap.get-insert m k j set, insert_ne_empty (or_default (HashMap.get m k)) v, h j)

  remove-HasNoEmpty : (m : SetMap K V) (k : K) (v : V) → HasNoEmpty m → HasNoEmpty (remove m k v).0
  unfolding remove
  remove-HasNoEmpty m k v h j = elim (Option-cases (HashMap.get m k)) [
    | inl e ↦ rw (e, remove) (h j)
    | inr (set, e) ↦
        let rest = HashSet.remove set v in
        rw (e, remove)
          (ground (arith, HashMap.get-insert m k j rest, HashMap.get-remove m k j, h j))
  ]

  -- `insert` and `remove` leave no key with an empty set where none was.
  insert_remove-HasNoEmpty :
      (m : SetMap K V) (k : K) (v : V)
      → HasNoEmpty m
      → HasNoEmpty (insert m k v) × HasNoEmpty (remove m k v).0
  insert_remove-HasNoEmpty m k v h = (insert-HasNoEmpty m k v h, remove-HasNoEmpty m k v h)
