-- ===== src/Operator/Driving/Defs.antt =====
-- The invariant of the commanded velocity, for what `Tick`, `UpdateStatus` and `ClearInput` do.
use humanoid_common.Prelude.{ℕ, ◌≡◌, ◌≢◌, ◌⊎◌, true, List, Text, text_eq, find_if, All, ℤ, some}
use humanoid_common.Floats.{Float, nought, Between}
use humanoid_common.RobotBase.ControlMode
use humanoid_common.Operator.Data.{Policy, Service}
use humanoid_common.Operator.Input.{velocity_of}

module _ {F : Type 0} ⦃f : Float F⦄ where
  abbrev pub still : F × F × F
  still = (nought, nought, nought)

  -- The limits are `double`, and the command's fields `float`.
  abbrev pub Within : Policy F → F × F × F → Type 0
  Within p (x, y, w) =
      Between (f.narrow p.minimum.vx) (f.narrow p.maximum.vx) x
      × Between (f.narrow p.minimum.vy) (f.narrow p.maximum.vy) y
      × Between (f.narrow p.minimum.wz) (f.narrow p.maximum.wz) w

  -- The limits of a policy are in order.
  abbrev pub HasLimits : Policy F → Type 0
  HasLimits p =
      (f.le p.minimum.vx p.maximum.vx ≡ true)
      × (f.le p.minimum.vy p.maximum.vy ≡ true)
      × (f.le p.minimum.wz p.maximum.wz ≡ true)

  -- The velocity is nought, or somebody has control, the robot runs the policy that is listed under its
  -- active name, and the velocity is within the limits of that policy, each rounded to `float` as the
  -- velocity is.
  abbrev pub Moves : List (Policy F) → ℤ → Text → ℕ → F × F × F → Type 0
  Moves policies mode active owner v =
      (v ≡ still)
      ⊎ ((owner ≢ 0)
          × (mode ≡ ControlMode.rl)
          × ((p : Policy F) × (find_if (λ q. text_eq q.name active) policies ≡ some p)
              × Within p v))

  pub record IsDriven (s : Service F) : Type 0 where
    pub limits : All HasLimits s.config.policies
    pub moves : Moves s.config.policies s.status.mode s.status.active_policy s.owner (velocity_of s)
