-- ===== src/Runtime/CommandLimits.antt =====
-- src/runtime/common/policy_command_limits.h: the limits of the velocities that a policy is given. The
-- configuration, read through a YAML library, is a parameter.
pub mod Bounds
use humanoid_common.Prelude.{
  ℕ, ◌≡◌, refl, Bool, true, false, not, ◌&&◌, ◌||◌, List, [], ◌∷◌, ◌++◌, Text, text, codes, Dict,
  find_text, has_text, if◌then◌else◌, if_either, if_split, Bool-cases, Option, none, some, Result,
  ok, err, ◌>>=◌, arith,
}
use humanoid_common.Floats.{Float, nought, clamp, IsOrdered}
use humanoid_common.RobotBase.{Command}

-- `YamlFile::Read`, for the kinds of values that are read here.
pub record Yaml (F : Type 0) : Type 0 where
  pub read_float : Text → Option F
  pub read_texts : Text → Option (List Text)

pub record Limits (F : Type 0) : Type 0 where
  pub min_vx : F
  pub max_vx : F
  pub min_vy : F
  pub max_vy : F
  pub min_wz : F
  pub max_wz : F

module _ {F : Type 0} ⦃f : Float F⦄ where
  abbrev pub no_limits : Limits F
  no_limits = record {
    min_vx = nought;
    max_vx = nought;
    min_vy = nought;
    max_vy = nought;
    min_wz = nought;
    max_wz = nought;
  }

  -- `Enabled`.
  abbrev pub enabled : Limits F → Bool
  enabled l =
      f.lt l.min_vx nought
      || (f.lt nought l.max_vx
          || (f.lt l.min_vy nought
              || (f.lt nought l.max_vy || (f.lt l.min_wz nought || f.lt nought l.max_wz))))

  unfoldable pub validate_max : F → Result F
  validate_max value =
      if not (f.is_finite value) || f.lt value nought then err else ok (f.narrow value)

  unfoldable pub validate_min : F → Result F
  validate_min value =
      if not (f.is_finite value) || f.lt nought value then err else ok (f.narrow value)

  -- The lower limit, where it is given, and else the upper one's opposite.
  unfoldable pub minimum_or : Option F → F → Result F
  unfolding validate_min
  minimum_or none maximum = ok (f.neg maximum)
  minimum_or (some value) maximum = validate_min value

  abbrev pub is_given : Option F → Bool
  is_given none = false
  is_given (some value) = true

  -- The three upper limits, and each lower one where it is given.
  unfoldable pub check_limits : F → F → F → Option F → Option F → Option F → Result (Limits F)
  unfolding validate_max minimum_or
  check_limits vx vy wz low_vx low_vy low_wz = do
    let max_vx = (← validate_max vx)
    let max_vy = (← validate_max vy)
    let max_wz = (← validate_max wz)
    let min_vx = (← minimum_or low_vx max_vx)
    let min_vy = (← minimum_or low_vy max_vy)
    let min_wz = (← minimum_or low_wz max_wz)
    ok (record {
      min_vx = min_vx;
      max_vx = max_vx;
      min_vy = min_vy;
      max_vy = max_vy;
      min_wz = min_wz;
      max_wz = max_wz;
    })

  -- All three upper limits are there, or it is an error.
  unfoldable pub require_maxima :
      Option F → Option F → Option F → Option F → Option F → Option F → Result (Limits F)
  unfolding check_limits
  require_maxima (some vx) (some vy) (some wz) low_vx low_vy low_wz =
      check_limits vx vy wz low_vx low_vy low_wz
  require_maxima _ _ _ low_vx low_vy low_wz = err

  -- Where none of the six limits is there, the policy is not driven.
  unfoldable pub limits_from :
      Option F → Option F → Option F → Option F → Option F → Option F → Result (Limits F)
  unfolding require_maxima
  limits_from max_vx max_vy max_wz min_vx min_vy min_wz =
      if is_given max_vx
        || (is_given max_vy
            || (is_given max_wz || (is_given min_vx || (is_given min_vy || is_given min_wz))))
      then require_maxima max_vx max_vy max_wz min_vx min_vy min_wz
      else ok no_limits

  -- `LoadOnePolicyCommandLimits`.
  unfoldable pub load_one_policy_command_limits : Yaml F → Text → Result (Limits F)
  unfolding limits_from
  load_one_policy_command_limits yaml name =
      let base = text "rl_policy.onnx_infer.policies." ++ (name ++ text ".command.limits") in
      limits_from (yaml.read_float (base ++ text ".max_vx"))
        (yaml.read_float (base ++ text ".max_vy")) (yaml.read_float (base ++ text ".max_wz"))
        (yaml.read_float (base ++ text ".min_vx")) (yaml.read_float (base ++ text ".min_vy"))
        (yaml.read_float (base ++ text ".min_wz"))

  -- `result.emplace`: a name that is there already keeps its limits.
  abbrev pub emplace_limits : Text → Limits F → Dict (Limits F) → Dict (Limits F)
  emplace_limits name limits m =
      if has_text name m then m else if enabled limits then m ++ ((name, limits) ∷ []) else m

  unfoldable pub load_all : Yaml F → List Text → Dict (Limits F) → Result (Dict (Limits F))
  unfolding load_one_policy_command_limits
  load_all yaml [] m = ok m
  load_all yaml (name ∷ names) m = load_one_policy_command_limits yaml name >>= λ limits.
      load_all yaml names (emplace_limits name limits m)

  -- `LoadPolicyCommandLimits`.
  unfoldable pub load_policy_command_limits : Yaml F → Result (Dict (Limits F))
  unfolding load_all
  load_policy_command_limits yaml =
      elim (yaml.read_texts (text "rl_policy.onnx_infer.policy_names")) [
        | none ↦ ok []
        | some names ↦ load_all yaml names []
      ]

  -- `ClampVelocity`.
  unfoldable pub clamp_velocity : F → F → F → F
  clamp_velocity value minimum maximum =
      if f.is_finite value then clamp value minimum maximum else nought

  -- `ApplyPolicyCommandLimits`: a policy with no limits is not driven.
  unfoldable pub apply_policy_command_limits : Option (Limits F) → Command F → Command F
  unfolding clamp_velocity
  apply_policy_command_limits none c = record c { vx = nought; vy = nought; wz = nought }
  apply_policy_command_limits (some l) c = record c {
    vx = clamp_velocity c.vx l.min_vx l.max_vx;
    vy = clamp_velocity c.vy l.min_vy l.max_vy;
    wz = clamp_velocity c.wz l.min_wz l.max_wz;
  }
