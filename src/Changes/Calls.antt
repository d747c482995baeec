-- ===== src/Changes/Calls.antt =====
-- src/changes: what a call of the outside, in src/changes/guard.ts and src/changes/restore.ts, has
-- shown once it has come back.
use dbdock.Base.{◌≡◌, refl}
use dbdock.Base.Effect.{Effect, Result, ok, err}
use dbdock.Base.Triple.{Outcome, Triple}
use dbdock.Cloud.Dict.{Dict}
use dbdock.Changes.Record.{Machine, LocalRecord, outside, carried}

module _ {E W A : Type 0} where
  -- The call was made in a world of which `P` holds, returned `x`, and left this world.
  abbrev pub After : (W → Type 0) → Effect E W A → A → W → Type 0
  After P m x v = (w : W) × P w × (m w ≡ (ok x, v))

  -- The call was made in such a world, and threw.
  abbrev pub Threw : (W → Type 0) → Effect E W A → W → Type 0
  Threw P m v = (w : W) × (e : E) × P w × (m w ≡ (err e, v))

  module _ (P : W → Type 0) (K : Dict LocalRecord → Type 0) (m : Effect E W A) where
    Outcome-called :
        (s : Machine W) (r : Result E A × W)
        → P s.world
        → K s.records
        → m s.world ≡ r
        → Outcome
            (λ x t. After P m x t.world × K t.records)
            (λ t. Threw P m t.world × K t.records)
            (carried s r)
    Outcome-called s (ok x, w) p k e = ((s.world, p, e), k)
    Outcome-called s (err f, w) p k e = ((s.world, f, p, e), k)

    -- The records stay, and the call is known.
    pub Triple-called :
        Triple
          (λ s. P s.world × K s.records)
          (outside m)
          (λ x t. After P m x t.world × K t.records)
          (λ t. Threw P m t.world × K t.records)
    unfolding outside
    Triple-called = record { run = λ s h. Outcome-called s (m s.world) h.0 h.1 refl }
