-- ===== src/Collections/DoubleSetMap.antt =====
-- `DoubleSetMap` of common/src/util.rs.
pub mod Relation
use shamichan.Prelude.{
  ◌≡◌, refl, sym, ap, ◌∙◌, List, [], ◌∷◌, Option, none, some, arith, Bool, true, false,
  if◌then◌else◌, Option-cases, Bool-cases, inl, inr, ◌&&◌, not,
}
use shamichan.Prelude.Eq.{Eq, eq}
use shamichan.Collections.HashMap
use shamichan.Collections.HashSet
use shamichan.Collections.HashSet.{HashSet}
use shamichan.Collections.SetMap
use shamichan.Collections.SetMap.{SetMap}

pub record DoubleSetMap {ℓ κ} (K : Type ℓ) (V : Type κ) : Type (ℓ ⊔ κ) where
  pub by_key : SetMap K V
  pub by_value : SetMap V K

-- `for v in set { other.remove(&v, &k); }`
unfoldable pub remove_each {ℓ κ} :
    {K : Type ℓ} {V : Type κ} ⦃ek : Eq K⦄ ⦃ev : Eq V⦄ → SetMap V K → HashSet V → K → SetMap V K
remove_each m [] k = m
remove_each m (v ∷ set) k = remove_each (SetMap.remove m v k).0 set k

module _ {ℓ κ} {K : Type ℓ} {V : Type κ} ⦃ek : Eq K⦄ ⦃ev : Eq V⦄ where
  unfoldable pub insert : DoubleSetMap K V → K → V → DoubleSetMap K V
  insert d k v = record {
    by_key = SetMap.insert d.by_key k v;
    by_value = SetMap.insert d.by_value v k;
  }

  abbrev pub without_key : DoubleSetMap K V → K → Option (HashSet V) → DoubleSetMap K V
  without_key d k none = d
  without_key d k (some set) = record {
    by_key = HashMap.remove d.by_key k;
    by_value = remove_each d.by_value set k;
  }

  unfoldable pub remove_by_key : DoubleSetMap K V → K → DoubleSetMap K V
  remove_by_key d k = without_key d k (HashMap.get d.by_key k)

  abbrev pub without_value : DoubleSetMap K V → V → Option (HashSet K) → DoubleSetMap K V
  without_value d v none = d
  without_value d v (some set) = record {
    by_key = remove_each d.by_key set v;
    by_value = HashMap.remove d.by_value v;
  }

  unfoldable pub remove_by_value : DoubleSetMap K V → V → DoubleSetMap K V
  remove_by_value d v = without_value d v (HashMap.get d.by_value v)

  -- The set is changed in place: it stays in `by_key` also where it is left empty.
  abbrev pub without_pair : DoubleSetMap K V → K → V → Option (HashSet V) → DoubleSetMap K V
  without_pair d k v none = d
  without_pair d k v (some set) = record {
    by_key = HashMap.insert d.by_key k (HashSet.remove set v);
    by_value = if HashSet.contains set v then (SetMap.remove d.by_value v k).0 else d.by_value;
  }

  unfoldable pub remove_by_key_value : DoubleSetMap K V → K → V → DoubleSetMap K V
  remove_by_key_value d k v = without_pair d k v (HashMap.get d.by_key k)

  -- Both maps stand for one relation.
  abbrev pub IsConsistent : DoubleSetMap K V → Type (ℓ ⊔ κ)
  IsConsistent d = (k : K) (v : V) → SetMap.relates d.by_key k v ≡ SetMap.relates d.by_value v k
