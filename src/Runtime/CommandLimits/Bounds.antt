-- ===== src/Runtime/CommandLimits/Bounds.antt =====
-- That limits from the configuration bound every command.
use humanoid_common.Prelude.{
  ◌≡◌, subst, true, not, ◌||◌, ◌++◌, Text, text, if_either, if_split, Option, none, some, Result,
  ok, err, ◌>>=◌, arith,
}
use humanoid_common.Floats.{Float, nought, IsOrdered, Between, clamp-Between}
use humanoid_common.RobotBase.{Command}
use humanoid_common.Runtime.CommandLimits.{
  Yaml, Limits, validate_max, validate_min, minimum_or, check_limits, require_maxima, limits_from,
  is_given, load_one_policy_command_limits, clamp_velocity, apply_policy_command_limits,
}

-- Narrowing to `float` and changing the sign, as the order sees them.
pub record IsSigned {F : Type 0} (f : Float F) : Type 0 where
  pub narrow_up : (x : F) → f.le (f.lit 0 0) x ≡ true → f.le (f.lit 0 0) (f.narrow x) ≡ true
  pub narrow_down : (x : F) → f.le x (f.lit 0 0) ≡ true → f.le (f.narrow x) (f.lit 0 0) ≡ true
  pub neg_down : (x : F) → f.le (f.lit 0 0) x ≡ true → f.le (f.neg x) (f.lit 0 0) ≡ true

-- What holds of a value that is not an error.
abbrev pub Gives : {A : Type 0} → (A → Type 0) → Result A → Type 0
Gives P (ok a) = P a
Gives P err = Unit

Gives-bind :
    {A B : Type 0} (P : A → Type 0) (Q : B → Type 0) (m : Result A) (g : A → Result B)
    → Gives P m
    → ((a : A) → P a → Gives Q (g a))
    → Gives Q (m >>= g)
Gives-bind P Q (ok a) g h k = k a h
Gives-bind P Q err g h k = tt

module _ {F : Type 0} ⦃f : Float F⦄ (law : IsOrdered f) (sign : IsSigned f) where
  abbrev Up : F → Type 0
  Up x = f.le nought x ≡ true

  abbrev Down : F → Type 0
  Down x = f.le x nought ≡ true

  nought_le : f.le nought nought ≡ true
  nought_le = law.le_of_is_finite nought law.nought_finite

  validate_max-Up : (v : F) → Gives Up (validate_max v)
  unfolding validate_max
  validate_max-Up v =
      if_split (Gives Up) (not (f.is_finite v) || f.lt v nought) (λ _. tt)
        λ e.
          let self : f.le v v ≡ true = law.le_of_is_finite v (ground (arith, e)) in
          sign.narrow_up v (law.le_of_not_lt nought v nought_le self (ground (arith, e)))

  validate_min-Down : (v : F) → Gives Down (validate_min v)
  unfolding validate_min
  validate_min-Down v =
      if_split (Gives Down) (not (f.is_finite v) || f.lt nought v) (λ _. tt)
        λ e.
          let self : f.le v v ≡ true = law.le_of_is_finite v (ground (arith, e)) in
          sign.narrow_down v (law.le_of_not_lt v nought self nought_le (ground (arith, e)))

  minimum_or-Down : (o : Option F) (maximum : F) → Up maximum → Gives Down (minimum_or o maximum)
  unfolding minimum_or
  minimum_or-Down none maximum h = sign.neg_down maximum h
  minimum_or-Down (some v) maximum h = validate_min-Down v

  -- Each lower limit is at most 0, and each upper one at least.
  record Spans (l : Limits F) : Type 0 where
    vx : Down l.min_vx × Up l.max_vx
    vy : Down l.min_vy × Up l.max_vy
    wz : Down l.min_wz × Up l.max_wz

  check_limits-Spans :
      (vx vy wz : F) (low_vx low_vy low_wz : Option F)
      → Gives Spans (check_limits vx vy wz low_vx low_vy low_wz)
  unfolding check_limits
  check_limits-Spans vx vy wz low_vx low_vy low_wz =
      Gives-bind Up Spans (validate_max vx) _ (validate_max-Up vx) λ a ua.
        Gives-bind Up Spans (validate_max vy) _ (validate_max-Up vy) λ b ub.
          Gives-bind Up Spans (validate_max wz) _ (validate_max-Up wz) λ c uc.
            Gives-bind Down Spans (minimum_or low_vx a) _ (minimum_or-Down low_vx a ua) λ d dd.
              Gives-bind Down Spans (minimum_or low_vy b) _ (minimum_or-Down low_vy b ub) λ e de.
                Gives-bind Down Spans (minimum_or low_wz c) _ (minimum_or-Down low_wz c uc)
                  λ g dg. record { vx = (dd, ua); vy = (de, ub); wz = (dg, uc) }

  require_maxima-Spans : (a b c d e g : Option F) → Gives Spans (require_maxima a b c d e g)
  unfolding require_maxima
  require_maxima-Spans (some a) (some b) (some c) d e g = check_limits-Spans a b c d e g
  require_maxima-Spans (some a) (some b) none d e g = tt
  require_maxima-Spans (some a) none c d e g = tt
  require_maxima-Spans none b c d e g = tt

  limits_from-Spans : (a b c d e g : Option F) → Gives Spans (limits_from a b c d e g)
  unfolding limits_from
  limits_from-Spans a b c d e g =
      if_either (Gives Spans)
        (is_given a || (is_given b || (is_given c || (is_given d || (is_given e || is_given g)))))
        (require_maxima-Spans a b c d e g)
        (record {
          vx = (nought_le, nought_le);
          vy = (nought_le, nought_le);
          wz = (nought_le, nought_le);
        })

  load-Spans :
      (yaml : Yaml F) (name : Text) → Gives Spans (load_one_policy_command_limits yaml name)
  unfolding load_one_policy_command_limits
  load-Spans yaml name =
      let base = text "rl_policy.onnx_infer.policies." ++ (name ++ text ".command.limits") in
      let read = λ (key : Text). yaml.read_float (base ++ key) in
      limits_from-Spans (read (text ".max_vx")) (read (text ".max_vy")) (read (text ".max_wz"))
        (read (text ".min_vx")) (read (text ".min_vy")) (read (text ".min_wz"))

  clamp_velocity-Between : (v lo hi : F) → Down lo → Up hi → Between lo hi (clamp_velocity v lo hi)
  unfolding clamp_velocity
  clamp_velocity-Between v lo hi a b =
      if_split (Between lo hi) (f.is_finite v)
        (λ e. clamp-Between law v lo hi e (law.le_trans lo nought hi a b)) λ _. (a, b)

  -- Whatever limits the configuration of a policy gives, every command that they are applied to, with
  -- velocities that may be infinite or NaN, ends within them.
  pub loaded_limits_hold :
      (yaml : Yaml F) (name : Text) (l : Limits F) (c : Command F)
      → load_one_policy_command_limits yaml name ≡ ok l
      → let r = apply_policy_command_limits (some l) c in
        Between l.min_vx l.max_vx r.vx
        × Between l.min_vy l.max_vy r.vy
        × Between l.min_wz l.max_wz r.wz
  unfolding apply_policy_command_limits
  loaded_limits_hold yaml name l c e =
      let s : Spans l = subst (Gives Spans) e (load-Spans yaml name) in
      (
        clamp_velocity-Between c.vx _ _ s.vx.0 s.vx.1,
        clamp_velocity-Between c.vy _ _ s.vy.0 s.vy.1,
        clamp_velocity-Between c.wz _ _ s.wz.0 s.wz.1,
      )
