-- ===== src/Server/MtContext/System/Guards.antt =====
-- An event that happens has passed its guard (the steps of the system of server/src/mt_context.rs).
use shamichan.Prelude.{◌≡◌, refl, Option, none, some, Bool, true, false, if◌then◌else◌, arith}
use shamichan.Server.MtContext.System.{System}

module _ {ℓ} {M : Type ℓ} where
  -- What a guard lets through.
  pub guarded : (b : Bool) (z y : System M) → (if b then none else some z) ≡ some y → z ≡ y
  guarded true z y e = absurd (ground arith)
  guarded false z y e = cc

  pub admitted : (b : Bool) (z y : System M) → (if b then some z else none) ≡ some y → z ≡ y
  admitted true z y e = cc
  admitted false z y e = absurd (ground arith)

  pub admits : (b : Bool) (z y : System M) → (if b then some z else none) ≡ some y → b ≡ true
  admits true z y e = refl
  admits false z y e = absurd (ground arith)

  pub unguarded :
      (b : Bool) (o : Option (System M)) (y : System M)
      → (if b then none else o) ≡ some y
      → o ≡ some y
  unguarded true o y e = absurd (ground arith)
  unguarded false o y e = e
