-- ===== src/Examples/Collections.antt =====
-- A relation of two keys and their values.
use shamichan.Prelude.{ℕ, ◌≡◌, refl, [], ◌∷◌, some, true, false, arith}
use shamichan.Prelude.Eq.{ℕ_eq}
use shamichan.Collections.HashMap
use shamichan.Collections.HashSet
use shamichan.Collections.SetMap.{SetMap}
use shamichan.Collections.SetMap
use shamichan.Collections.DoubleSetMap.{
  DoubleSetMap, IsConsistent, insert, remove_by_key, remove_by_value, remove_by_key_value,
}
use shamichan.Collections.DoubleSetMap.Relation.{all-IsConsistent, relates_all}

abbrev both : DoubleSetMap ℕ ℕ
both = record { by_key = (4, 9 ∷ []) ∷ []; by_value = (9, 4 ∷ []) ∷ [] }

both-IsConsistent : IsConsistent both
unfolding SetMap.relates HashMap.get HashSet.contains
both-IsConsistent k v = ground arith

all-IsConsistent_example :
    IsConsistent (insert both 4 8)
    × IsConsistent (remove_by_key both 4)
    × IsConsistent (remove_by_value both 8)
    × IsConsistent (remove_by_key_value both 4 8)
all-IsConsistent_example = all-IsConsistent both 4 8 both-IsConsistent

relates_all_example :
    (SetMap.relates (insert both 4 9).by_key 4 9 ≡ true)
    × (SetMap.relates (remove_by_key both 4).by_key 4 9 ≡ false)
    × (SetMap.relates (remove_by_value both 9).by_key 4 9 ≡ false)
    × (SetMap.relates (remove_by_key_value both 4 9).by_key 4 9 ≡ false)
relates_all_example = relates_all both 4 9 4 9 both-IsConsistent

both_get : HashMap.get both.by_key 4 ≡ some (9 ∷ [])
unfolding HashMap.get
both_get = refl
