-- ===== src/Server/Snapshot/Versions.antt =====
-- The version of a snapshot stands for its value, through every history of a source.
use shamichan.Prelude.{
  ℕ, ◌+◌, ◌%◌, ◌^◌, ◌≤◌, ◌<◌, ◌≡◌, refl, sym, ap, subst, get_elem?, All-get_elem?, ◌&&◌, ◌∙◌, List,
  [], ◌∷◌, Option, none, some, true, if◌then◌else◌, ◌==◌, arith, All, length,
}
use shamichan.Server.Snapshot.{
  Snapshot, SnapshotSource, new, snapshot_of, snapshot, deref_mut, is_some, source_eq, snapshot_eq,
}

-- What a holder of a source does with it.
pub data Use {ℓ} (T : Type ℓ) : Type ℓ where
  take : Use T
  write : (T → T) → Use T

-- A source, and the snapshots that were taken of it, the newest first.
abbrev pub History {ℓ} : Type ℓ → Type ℓ
History T = SnapshotSource T × List (Snapshot T)

module _ {ℓ} {T : Type ℓ} where
  abbrev pub step : History T → Use T → History T
  step (s, taken) take = ((snapshot s).0, (snapshot s).1 ∷ taken)
  step (s, taken) (write f) = (deref_mut f s, taken)

  abbrev pub run : History T → List (Use T) → History T
  run h [] = h
  run h (u ∷ us) = run (step h u) us

  abbrev Known : (ℕ → T) → ℕ → Snapshot T → Type ℓ
  Known value version p = (p.val ≡ value p.snapshot_version) × (p.snapshot_version ≤ version)

  abbrev Current : (ℕ → T) → SnapshotSource T → Option (Snapshot T) → Type ℓ
  Current value s none = Unit
  Current value s (some p) =
      (p.val ≡ s.val)
      × (p.snapshot_version ≡ s.snapshot_version)
      × (value s.snapshot_version ≡ s.val)

  -- Some assignment of values to versions fits all that was taken, and the saved snapshot.
  abbrev Inv : (ℕ → T) → History T → Type ℓ
  Inv value (s, taken) =
      All (Known value s.snapshot_version) taken × Current value s s.last_snapshot

  extend : (ℕ → T) → ℕ → T → ℕ → T
  extend value n v k = if k == n then v else value k

  All-Known :
      (value : ℕ → T) (n m : ℕ) (v : T) (qs : List (Snapshot T))
      → n < m
      → All (Known value n) qs
      → All (Known (extend value m v) m) qs
  unfolding extend
  All-Known value n m v [] h a = tt
  All-Known value n m v (q ∷ qs) h (a, b) =
      ((ground arith, omega arith), All-Known value n m v qs h b)

  take-Inv :
      (value : ℕ → T) (s : SnapshotSource T) (taken : List (Snapshot T)) (o : Option (Snapshot T))
      → s.last_snapshot ≡ o
      → s.snapshot_version + 1 < 2 ^ 64
      → Inv value (s, taken)
      → (value' : ℕ → T) × Inv value' ((snapshot_of s o).0, (snapshot_of s o).1 ∷ taken)
  unfolding extend
  take-Inv value s taken none e h (a, c) =
      let n = s.snapshot_version in
      let m = (n + 1) % 2 ^ 64 in
      (
        extend value m s.val,
        (
          ((ground arith, omega arith), All-Known value n m s.val taken (omega arith) a),
          (refl, refl, ground arith),
        ),
      )
  take-Inv value s taken (some p) e h (a, c) =
      let (x, y, z) = subst (Current value s) e c in
      (value, (((x ∙ sym z ∙ ap value (sym y), omega arith), a), c))

  step-Inv :
      (value : ℕ → T) (h : History T) (u : Use T)
      → h.0.snapshot_version + 1 < 2 ^ 64
      → Inv value h
      → (value' : ℕ → T) × Inv value' (step h u)
  unfolding snapshot deref_mut
  step-Inv value (s, taken) take b i = take-Inv value s taken s.last_snapshot refl b i
  step-Inv value (s, taken) (write f) b (a, c) = (value, (a, tt))

  step_version :
      (h : History T) (u : Use T)
      → h.0.snapshot_version + 1 < 2 ^ 64
      → (step h u).0.snapshot_version ≤ h.0.snapshot_version + 1
  unfolding snapshot deref_mut
  step_version (s, taken) take b = ground arith
  step_version (s, taken) (write f) b = omega arith

  run-Inv :
      (us : List (Use T)) (value : ℕ → T) (h : History T)
      → h.0.snapshot_version + length us < 2 ^ 64
      → Inv value h
      → (value' : ℕ → T) × Inv value' (run h us)
  run-Inv [] value h b i = (value, i)
  run-Inv (u ∷ us) value h b i =
      let room : h.0.snapshot_version + 1 < 2 ^ 64 = omega arith in
      let (value', i') = step-Inv value h u room i in
      run-Inv us value' (step h u) (omega (arith, step_version h u room)) i'

  equal_values :
      (value : ℕ → T) (h : History T) (i j : ℕ) (p q : Snapshot T)
      → Inv value h
      → get_elem? h.1 i ≡ some p
      → get_elem? h.1 j ≡ some q
      → snapshot_eq p q ≡ true
      → p.val ≡ q.val
  unfolding snapshot_eq
  equal_values value (s, taken) i j p q (a, c) gp gq e =
      let (x, _) = All-get_elem? (Known value s.snapshot_version) taken i p a gp in
      let (y, _) = All-get_elem? (Known value s.snapshot_version) taken j q a gq in
      let v : p.snapshot_version ≡ q.snapshot_version = ground arith in x ∙ ap value v ∙ sym y

  held_value :
      (value : ℕ → T) (s : SnapshotSource T) (p : Snapshot T) (o : Option (Snapshot T))
      → p.val ≡ value p.snapshot_version
      → Current value s o
      → (is_some o && s.snapshot_version == p.snapshot_version) ≡ true
      → p.val ≡ s.val
  held_value value s p none x c e = absurd (ground arith)
  held_value value s p (some q) x (_, _, z) e =
      let v : p.snapshot_version ≡ s.snapshot_version = ground arith in x ∙ ap value v ∙ z

  -- After every history of fewer than 2 ^ 64 uses of a new source, two of its snapshots that compare
  -- equal hold equal values.
  pub run-snapshot_eq :
      (v : T) (us : List (Use T)) (i j : ℕ) (p q : Snapshot T)
      → length us < 2 ^ 64
      → get_elem? (run (new v, []) us).1 i ≡ some p
      → get_elem? (run (new v, []) us).1 j ≡ some q
      → snapshot_eq p q ≡ true
      → p.val ≡ q.val
  unfolding new
  run-snapshot_eq v us i j p q b gp gq e =
      let (value, inv) = run-Inv us (λ _. v) (new v, []) (omega arith) (tt, tt) in
      equal_values value (run (new v, []) us) i j p q inv gp gq e

  -- After every history of fewer than 2 ^ 64 uses of a new source, a snapshot that the source compares
  -- equal to holds the value that the source has now.
  run-source_eq :
      (v : T) (us : List (Use T)) (i : ℕ) (p : Snapshot T)
      → length us < 2 ^ 64
      → get_elem? (run (new v, []) us).1 i ≡ some p
      → source_eq (run (new v, []) us).0 p ≡ true
      → p.val ≡ (run (new v, []) us).0.val
  unfolding source_eq new
  run-source_eq v us i p b gp e =
      let (value, inv) = run-Inv us (λ _. v) (new v, []) (omega arith) (tt, tt) in
      let s = (run (new v, []) us).0 in
      let taken = (run (new v, []) us).1 in
      held_value value s p s.last_snapshot
        (All-get_elem? (Known value s.snapshot_version) taken i p inv.0 gp).0 inv.1 e
