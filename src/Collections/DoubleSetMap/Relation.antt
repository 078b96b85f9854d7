-- ===== src/Collections/DoubleSetMap/Relation.antt =====
-- The two maps of a `DoubleSetMap` (common/src/util.rs) are the two directions of one relation.
use shamichan.Prelude.{
  ◌≡◌, [], ◌∷◌, some, arith, true, false, if◌then◌else◌, Option-cases, inl, inr, ◌&&◌,
}
use shamichan.Prelude.Eq.{Eq, eq}
use shamichan.Collections.HashMap
use shamichan.Collections.HashSet
use shamichan.Collections.HashSet.{HashSet}
use shamichan.Collections.SetMap
use shamichan.Collections.SetMap.{SetMap}
use shamichan.Collections.DoubleSetMap.{
  DoubleSetMap, remove_each, insert, remove_by_key, remove_by_value, remove_by_key_value,
  IsConsistent,
}

-- The loop takes `k` from each value of the set, and changes nothing else.
pub relates-remove_each {ℓ κ} :
    {K : Type ℓ} {V : Type κ} ⦃ek : Eq K⦄ ⦃ev : Eq V⦄ (set : HashSet V) (m : SetMap V K) (k : K)
    (u : V) (j : K)
    → SetMap.relates (remove_each m set k) u j
      ≡ (if eq k j && HashSet.contains set u then false else SetMap.relates m u j)
unfolding remove_each HashSet.contains
relates-remove_each ⦃ek⦄ ⦃ev⦄ [] m k u j = ground arith
relates-remove_each ⦃ek⦄ ⦃ev⦄ (v ∷ set) m k u j = ground (
  arith,
  (SetMap.relates-remove m v k u j).0,
  relates-remove_each set (SetMap.remove m v k).0 k u j,
)

module _ {ℓ κ} {K : Type ℓ} {V : Type κ} ⦃ek : Eq K⦄ ⦃ev : Eq V⦄ where
  insert-IsConsistent :
      (d : DoubleSetMap K V) (k : K) (v : V) → IsConsistent d → IsConsistent (insert d k v)
  unfolding insert
  insert-IsConsistent d k v h j u = ground (
    arith,
    SetMap.relates-insert d.by_key k v j u,
    SetMap.relates-insert d.by_value v k u j,
    h j u,
  )

  remove_by_key-IsConsistent :
      (d : DoubleSetMap K V) (k : K) → IsConsistent d → IsConsistent (remove_by_key d k)
  unfolding remove_by_key
  remove_by_key-IsConsistent d k h j u = elim (Option-cases (HashMap.get d.by_key k)) [
    | inl e ↦ rw (e, remove_by_key) (h j u)
    | inr (set, e) ↦
        rw (e, remove_by_key)
          (ground (
            arith,
            ek.eq_iff k j,
            SetMap.relates-get d.by_key k set u e,
            SetMap.relates_drop d.by_key k j u,
            relates-remove_each set d.by_value k u j,
            h j u,
          ))
  ]

  remove_by_value-IsConsistent :
      (d : DoubleSetMap K V) (v : V) → IsConsistent d → IsConsistent (remove_by_value d v)
  unfolding remove_by_value
  remove_by_value-IsConsistent d v h j u = elim (Option-cases (HashMap.get d.by_value v)) [
    | inl e ↦ rw (e, remove_by_value) (h j u)
    | inr (set, e) ↦
        rw (e, remove_by_value)
          (ground (
            arith,
            ev.eq_iff v u,
            SetMap.relates-get d.by_value v set j e,
            SetMap.relates_drop d.by_value v u j,
            relates-remove_each set d.by_key v j u,
            h j u,
          ))
  ]

  remove_by_key_value-IsConsistent :
      (d : DoubleSetMap K V) (k : K) (v : V)
      → IsConsistent d
      → IsConsistent (remove_by_key_value d k v)
  unfolding remove_by_key_value
  remove_by_key_value-IsConsistent d k v h j u = elim (Option-cases (HashMap.get d.by_key k)) [
    | inl e ↦ rw (e, remove_by_key_value) (h j u)
    | inr (set, e) ↦
        rw (e, remove_by_key_value)
          (ground (
            arith,
            ek.eq_iff k j,
            ev.eq_iff v u,
            SetMap.relates-get d.by_key k set u e,
            SetMap.relates_put d.by_key k (HashSet.remove set v) j u,
            HashSet.contains-remove set v u,
            (SetMap.relates-remove d.by_value v k u j).0,
            h j u,
          ))
  ]

  -- Every operation keeps the two maps the two directions of one relation.
  pub all-IsConsistent :
      (d : DoubleSetMap K V) (k : K) (v : V)
      → IsConsistent d
      → IsConsistent (insert d k v)
        × IsConsistent (remove_by_key d k)
        × IsConsistent (remove_by_value d v)
        × IsConsistent (remove_by_key_value d k v)
  all-IsConsistent d k v h = (
    insert-IsConsistent d k v h,
    remove_by_key-IsConsistent d k h,
    remove_by_value-IsConsistent d v h,
    remove_by_key_value-IsConsistent d k v h,
  )

  relates-remove_by_key :
      (d : DoubleSetMap K V) (k j : K) (u : V)
      → SetMap.relates (remove_by_key d k).by_key j u
        ≡ (if eq k j then false else SetMap.relates d.by_key j u)
  unfolding remove_by_key
  relates-remove_by_key d k j u = elim (Option-cases (HashMap.get d.by_key k)) [
    | inl e ↦
        rw (e, remove_by_key)
          (ground (arith, ek.eq_iff k j, SetMap.relates-get-none d.by_key k u e))
    | inr (set, e) ↦ rw (e, remove_by_key) (SetMap.relates_drop d.by_key k j u)
  ]

  relates-remove_by_value :
      (d : DoubleSetMap K V) (v : V) (j : K) (u : V)
      → IsConsistent d
      → SetMap.relates (remove_by_value d v).by_key j u
        ≡ (if eq v u then false else SetMap.relates d.by_key j u)
  unfolding remove_by_value
  relates-remove_by_value d v j u h = elim (Option-cases (HashMap.get d.by_value v)) [
    | inl e ↦
        rw (e, remove_by_value)
          (ground (arith, ev.eq_iff v u, SetMap.relates-get-none d.by_value v j e, h j u))
    | inr (set, e) ↦
        rw (e, remove_by_value)
          (ground (
            arith,
            ev.eq_iff v u,
            SetMap.relates-get d.by_value v set j e,
            relates-remove_each set d.by_key v j u,
            h j u,
          ))
  ]

  relates-remove_by_key_value :
      (d : DoubleSetMap K V) (k : K) (v : V) (j : K) (u : V)
      → SetMap.relates (remove_by_key_value d k v).by_key j u
        ≡ (if eq k j && eq v u then false else SetMap.relates d.by_key j u)
  unfolding remove_by_key_value
  relates-remove_by_key_value d k v j u = elim (Option-cases (HashMap.get d.by_key k)) [
    | inl e ↦
        rw (e, remove_by_key_value)
          (ground (arith, ek.eq_iff k j, SetMap.relates-get-none d.by_key k u e))
    | inr (set, e) ↦
        rw (e, remove_by_key_value)
          (ground (
            arith,
            ek.eq_iff k j,
            SetMap.relates-get d.by_key k set u e,
            SetMap.relates_put d.by_key k (HashSet.remove set v) j u,
            HashSet.contains-remove set v u,
          ))
  ]

  -- What the operations make of the relation: `insert` adds the pair, `remove_by_key` takes every
  -- pair of the key, `remove_by_value` every pair of the value, `remove_by_key_value` the one pair;
  -- all else stays. It is read off the map by key, in a map that is consistent.
  pub relates_all :
      (d : DoubleSetMap K V) (k : K) (v : V) (j : K) (u : V)
      → IsConsistent d
      → let r = SetMap.relates d.by_key j u in
        (SetMap.relates (insert d k v).by_key j u ≡ (if eq k j && eq v u then true else r))
        × (SetMap.relates (remove_by_key d k).by_key j u ≡ (if eq k j then false else r))
        × (SetMap.relates (remove_by_value d v).by_key j u ≡ (if eq v u then false else r))
        × (SetMap.relates (remove_by_key_value d k v).by_key j u
            ≡ (if eq k j && eq v u then false else r))
  unfolding insert
  relates_all d k v j u h = (
    SetMap.relates-insert d.by_key k v j u,
    relates-remove_by_key d k j u,
    relates-remove_by_value d v j u h,
    relates-remove_by_key_value d k v j u,
  )

  -- Taking the last value of a key by `remove_by_key_value` leaves the key with an empty set.
  remove_by_key_value_empty :
      (d : DoubleSetMap K V) (k : K) (v : V)
      → HashMap.get d.by_key k ≡ some (v ∷ [])
      → HashMap.get (remove_by_key_value d k v).by_key k ≡ some []
  unfolding remove_by_key_value HashSet.remove
  remove_by_key_value_empty d k v e =
      rw (e, remove_by_key_value)
        (ground (arith, ek.eq_iff k k, ev.eq_iff v v, HashMap.get-insert d.by_key k k []))
