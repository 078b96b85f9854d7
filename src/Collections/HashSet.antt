-- ===== src/Collections/HashSet.antt =====
-- `std::collections::HashSet` as a list in which a value stands once.
use shamichan.Prelude.{◌≡◌, refl, List, [], ◌∷◌, arith, Bool, true, false, if◌then◌else◌}
use shamichan.Prelude.Eq.{Eq, eq}

abbrev pub HashSet {ℓ} : Type ℓ → Type ℓ
HashSet V = List V

abbrev pub is_empty {ℓ} : {V : Type ℓ} → HashSet V → Bool
is_empty [] = true
is_empty (w ∷ s) = false

module _ {ℓ} {V : Type ℓ} ⦃e : Eq V⦄ where
  unfoldable pub contains : HashSet V → V → Bool
  contains [] v = false
  contains (w ∷ s) v = if eq w v then true else contains s v

  unfoldable pub insert : HashSet V → V → HashSet V
  insert [] v = v ∷ []
  insert (w ∷ s) v = if eq w v then w ∷ s else w ∷ insert s v

  unfoldable pub remove : HashSet V → V → HashSet V
  remove [] v = []
  remove (w ∷ s) v = let rest = remove s v in if eq w v then rest else w ∷ rest

  pub contains-insert :
      (s : HashSet V) (v u : V) → contains (insert s v) u ≡ (if eq v u then true else contains s u)
  unfolding contains insert
  contains-insert [] v u = refl
  contains-insert (w ∷ s) v u =
      ground (arith, e.eq_iff w v, e.eq_iff w u, e.eq_iff v u, contains-insert s v u)

  pub contains-remove :
      (s : HashSet V) (v u : V) → contains (remove s v) u ≡ (if eq v u then false else contains s u)
  unfolding contains remove
  contains-remove [] v u = ground arith
  contains-remove (w ∷ s) v u =
      ground (arith, e.eq_iff w v, e.eq_iff w u, e.eq_iff v u, contains-remove s v u)

  pub contains_empty : (s : HashSet V) (v : V) → is_empty s ≡ true → contains s v ≡ false
  unfolding contains
  contains_empty [] v h = refl
  contains_empty (w ∷ s) v h = ground arith
