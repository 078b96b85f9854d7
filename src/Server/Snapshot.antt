-- ===== src/Server/Snapshot.antt =====
-- `SnapshotSource`, `Snapshot` and `IDGenerator` of server/src/util.rs. An `Arc<T>` is its value.
pub mod Versions
use shamichan.Prelude.{ℕ, ◌+◌, ◌%◌, ◌^◌, Option, none, some, Bool, true, false, ◌&&◌, ◌==◌}

-- `IDGenerator::next`: the new counter is the identifier.
unfoldable pub next : ℕ → ℕ
next counter = (counter + 1) % 2 ^ 64

pub record Snapshot {ℓ} (T : Type ℓ) : Type ℓ where
  pub snapshot_version : ℕ
  pub val : T

pub record SnapshotSource {ℓ} (T : Type ℓ) : Type ℓ where
  pub val : T
  pub snapshot_version : ℕ
  pub last_snapshot : Option (Snapshot T)

module _ {ℓ} {T : Type ℓ} where
  -- `SnapshotSource::new`
  unfoldable pub new : T → SnapshotSource T
  new val = record { val = val; snapshot_version = 0; last_snapshot = none }

  abbrev pub snapshot_of : SnapshotSource T → Option (Snapshot T) → SnapshotSource T × Snapshot T
  snapshot_of s (some p) = (s, p)
  snapshot_of s none =
      let version = (s.snapshot_version + 1) % 2 ^ 64 in
      let p : Snapshot T = record { snapshot_version = version; val = s.val } in
      (record s { snapshot_version = version; last_snapshot = some p }, p)

  -- `SnapshotSource::snapshot`: the source after the call, and the snapshot.
  unfoldable pub snapshot : SnapshotSource T → SnapshotSource T × Snapshot T
  snapshot s = snapshot_of s s.last_snapshot

  -- A mutation of the value through `deref_mut`.
  unfoldable pub deref_mut : (T → T) → SnapshotSource T → SnapshotSource T
  deref_mut f s = record s { val = f s.val; last_snapshot = none }

  abbrev pub is_some : Option (Snapshot T) → Bool
  is_some none = false
  is_some (some p) = true

  -- `SnapshotSource == Snapshot`
  unfoldable pub source_eq : SnapshotSource T → Snapshot T → Bool
  source_eq s p = is_some s.last_snapshot && s.snapshot_version == p.snapshot_version

  -- `Snapshot == Snapshot`
  unfoldable pub snapshot_eq : Snapshot T → Snapshot T → Bool
  snapshot_eq p q = p.snapshot_version == q.snapshot_version
