-- ===== src/Feeds/Last5.antt =====
-- `Last5` of server/src/feeds/thread/last_5.rs. The array of six slots is a list.
pub mod Zero
use shamichan.Prelude.{
  ℕ, zero, suc, ◌+◌, ◌-◌, List, [], ◌∷◌, ◌++◌, Option, none, some, if◌then◌else◌, ltb, leb, take,
  drop, get_elem?,
}

pub record Last5 : Type 0 where
  pub len : ℕ
  pub arr : List ℕ

abbrev pub slot : Option ℕ → ℕ
slot none = 0
slot (some id) = id

abbrev pub set : List ℕ → ℕ → ℕ → List ℕ
set [] i v = []
set (x ∷ xs) zero v = v ∷ xs
set (x ∷ xs) (suc i) v = x ∷ set xs i v

-- `sort_unstable` on numbers
abbrev pub insert_sorted : ℕ → List ℕ → List ℕ
insert_sorted v [] = v ∷ []
insert_sorted v (x ∷ xs) = if leb v x then v ∷ x ∷ xs else x ∷ insert_sorted v xs

abbrev pub sort : List ℕ → List ℕ
sort [] = []
sort (x ∷ xs) = insert_sorted x (sort xs)

-- `Last5::new`
unfoldable pub new : ℕ → Last5
new first = record { len = 1; arr = first ∷ 0 ∷ 0 ∷ 0 ∷ 0 ∷ 0 ∷ [] }

-- `Last5::min`
unfoldable pub min : Last5 → ℕ
min s = slot (get_elem? s.arr 0)

-- `Last5::max`
unfoldable pub max : Last5 → ℕ
max s = slot (get_elem? s.arr (s.len - 1))

-- `self.arr[self.len] = id; self.arr[..self.len + 1].sort_unstable();`
abbrev pub place : ℕ → List ℕ → ℕ → Last5
place len arr id = record {
  len = len;
  arr = sort (take (suc len) (set arr len id)) ++ drop (suc len) (set arr len id);
}

-- `Last5::push`
unfoldable pub push : Last5 → ℕ → Last5
unfolding max
push s id =
    if ltb s.len 5
    then place (s.len + 1) s.arr id
    else if ltb (max s) id
    then s
    else place s.len s.arr id

-- The pushes of a loop over identifiers.
unfoldable pub push_all : Last5 → List ℕ → Last5
unfolding push
push_all s [] = s
push_all s (id ∷ ids) = push_all (push s id) ids
