-- ===== src/Operator/Driving/Requests.antt =====
-- What a client's request does to the commanded velocity.
use humanoid_common.Prelude.{
  ℕ, ◌≡◌, ◌≢◌, inl, inr, refl, Bool, true, false, not, ◌||◌, ◌&&◌, List, [], ◌∷◌, subst, Text, text,
  text_eq, find_if, if_either, if_split, Bool-cases, ℤ, pos, int_eq, int_eq_iff, none, some, Option,
  codes, Result, ok, err, All, arith, ◌==◌,
}
use humanoid_common.Floats.{Float, IsOrdered, narrow_clamp-Between}
use humanoid_common.RobotBase.ControlMode
use humanoid_common.Operator.Data.{Policy, Op, Service}
use humanoid_common.Operator.Input.{active_policy, online, velocity_of, clear_input}
use humanoid_common.Operator.Names.{state_name, busy}
use humanoid_common.Operator.Effects.{Ends, Goes}
use humanoid_common.Operator.Requests.Access.{Outcome}
use humanoid_common.Operator.Requests.Control.{
  stop, release, acquire, renew, give_way, drive, healthy_rl,
}
use humanoid_common.Operator.Requests.Actions.{
  key_for, is_hot, offers, current_actions, is_manual, ask_listed, ask_state, ask_action,
  ask_reference, ask_ack, submit,
}
use humanoid_common.Operator.Requests.Handle.{or_invalid}
use humanoid_common.Operator.Driving.Defs.{HasLimits, Moves, IsDriven}
use humanoid_common.Operator.Driving.Upkeep.{clear_input-IsDriven}

-- A policy that is found has the property that all listed ones have.
pub All-find_if :
    {A : Type 0} (P : A → Type 0) (p : A → Bool) (xs : List A) {x : A}
    → All P xs
    → find_if p xs ≡ some x
    → P x
All-find_if P p [] h e = cc
All-find_if P p (y ∷ ys) {x} (h, hs) e = elim (Bool-cases (p y)) [
  | inl t ↦ let found : y ≡ x = ground (arith, e, t) in subst P found h
  | inr t ↦ All-find_if P p ys hs (ground (arith, e, t))
]

module _ {F : Type 0} ⦃f : Float F⦄ where
  pub limits_of_active :
      (p : Policy F) (s : Service F)
      → All HasLimits s.config.policies
      → active_policy s ≡ some p
      → HasLimits p
  unfolding active_policy
  limits_of_active p s l e = All-find_if HasLimits _ s.config.policies l e

  pub submit-IsDriven :
      (now : F) (id : ℕ) (op : Op) (s : Service F) → IsDriven s → IsDriven (submit now id op s).0
  unfolding submit
  submit-IsDriven now id op s v = record { limits = v.limits; moves = v.moves }

  pub drive-IsDriven :
      (law : IsOrdered f) (now vx vy wz seconds : F) (policy : Policy F) (s : Service F)
      → s.owner ≢ 0
      → healthy_rl s ≡ true
      → IsDriven s
      → active_policy s ≡ some policy
      → f.is_finite vx && (f.is_finite vy && f.is_finite wz) ≡ true
      → IsDriven (drive now vx vy wz seconds policy s)
  unfolding drive active_policy
  drive-IsDriven law now vx vy wz seconds policy s o h v e fin =
      let (l, m, n) = limits_of_active policy s v.limits e in
      record {
        limits = v.limits;
        moves = inr (
          o,
          ground (arith, h, int_eq_iff s.status.mode ControlMode.rl),
          (
            policy,
            e,
            (
              narrow_clamp-Between law vx _ _ (ground (arith, fin)) l,
              narrow_clamp-Between law vy _ _ (ground (arith, fin)) m,
              narrow_clamp-Between law wz _ _ (ground (arith, fin)) n,
            ),
          ),
        );
      }

  pub stop-IsDriven : (id : ℕ) (s : Service F) → IsDriven s → IsDriven (stop id s).0
  unfolding stop
  stop-IsDriven id s v = clear_input-IsDriven _ s v

  pub release-IsDriven : (id k : ℕ) (s : Service F) → IsDriven s → IsDriven (release id k s).0
  unfolding release
  release-IsDriven id k s v = if_either IsDriven _ (clear_input-IsDriven _ s v) v

  -- An owner other than nobody may take the place of nobody or of itself.
  taken :
      (k : ℕ) (policies : List (Policy F)) (mode : ℤ) (active : Text) (owner : ℕ) (v : F × F × F)
      → not (owner == 0) && not (owner == k) ≡ false
      → Moves policies mode active owner v
      → Moves policies mode active k v
  taken k policies mode active owner v e (inl z) = inl z
  taken k policies mode active owner v e (inr (o, m, r)) =
      let same : k ≡ owner = ground (arith, e, o) in inr (rw same o, m, r)

  pub acquire-IsDriven :
      (now : F) (id k : ℕ) (s : Service F) → IsDriven s → IsDriven (acquire now id k s).0
  unfolding acquire
  acquire-IsDriven now id k s v =
      let P = λ (o : Outcome F). IsDriven o.0 in
      if_split P (not (online now s)) (λ _. v)
        λ _.
          if_split P (not (s.owner == 0) && not (s.owner == k)) (λ _. v)
            λ e. record { limits = v.limits; moves = taken k _ _ _ s.owner _ e v.moves }

  pub renew-IsDriven :
      (now : F) (id k : ℕ) (s : Service F) → IsDriven s → IsDriven (renew now id k s).0
  unfolding renew
  renew-IsDriven now id k s v =
      if_either (λ (o : Outcome F). IsDriven o.0) (not (s.owner == k)) v
        (record { limits = v.limits; moves = v.moves })

  restored :
      (now : F) (k : ℕ) (s : Service F)
      → let t = clear_input (text "safety state requested") s in
        Moves t.config.policies t.status.mode t.status.active_policy k (velocity_of t)
  unfolding clear_input
  restored now k s = inl refl

  pub give_way-IsDriven :
      (now : F) (k : ℕ) (s : Service F) → IsDriven s → IsDriven (give_way now k s)
  unfolding give_way
  give_way-IsDriven now k s v =
      let c = clear_input-IsDriven (text "safety state requested") s v in
      if_either IsDriven (s.owner == k) (record { limits = c.limits; moves = restored now k s }) c

  pub ask_state-Goes :
      (id : ℕ) (target : Text) (s : Service F) → IsDriven s → Goes IsDriven (ask_state id target s)
  unfolding ask_state
  ask_state-Goes id target s v =
      if_either (Goes IsDriven)
        (text_eq target (state_name s.status.mode) && not (text_eq target (codes "POWER_OFF"))) v
        (if_either (Goes IsDriven) (int_eq (key_for target s) (pos 0)) v
          (record { limits = v.limits; moves = v.moves }))

  pub ask_listed-Goes :
      (o : Option (Policy F)) (id : ℕ) (name : Text) (s : Service F)
      → IsDriven s
      → Goes IsDriven (ask_listed o id name s)
  unfolding ask_listed
  ask_listed-Goes none id name s v = v
  ask_listed-Goes (some p) id name s v =
      if_either (Goes IsDriven)
        (not (int_eq s.status.mode ControlMode.power_off)
          && (not (int_eq s.status.mode ControlMode.damp) && not (is_hot p s)))
        v (record { limits = v.limits; moves = inl refl })

  pub ask_action-Goes :
      (starts : Bool) (id : ℕ) (action : Text) (s : Service F)
      → IsDriven s
      → Goes IsDriven (ask_action starts id action s)
  unfolding ask_action
  ask_action-Goes starts id action s v =
      if_either (Goes IsDriven)
        (starts && (busy s.status.interaction.phase || not (offers action (current_actions s)))) v
        (record { limits = v.limits; moves = v.moves })

  pub ask_reference-Goes :
      (now : F) (id : ℕ) (s : Service F) → IsDriven s → Goes IsDriven (ask_reference now id s)
  unfolding ask_reference
  ask_reference-Goes now id s v =
      if_either (Goes IsDriven)
        (s.config.trajectory_enabled
          || (not (int_eq s.status.mode ControlMode.rl) || not (is_manual (active_policy s))))
        v (record { limits = v.limits; moves = v.moves })

  pub ask_ack-Goes : (id : ℕ) (s : Service F) → IsDriven s → Goes IsDriven (ask_ack id s)
  unfolding ask_ack
  ask_ack-Goes id s v =
      if_either (Goes IsDriven)
        (not (int_eq s.status.mode ControlMode.power_off)
          || (not s.fault.latched || (s.fault.active || s.fault.sequence == 0)))
        v (record { limits = v.limits; moves = v.moves })

  pub or_invalid-IsDriven :
      (id : ℕ) (s : Service F) (r : Result (Outcome F))
      → IsDriven s
      → Ends IsDriven r
      → IsDriven (or_invalid id s r).0
  or_invalid-IsDriven id s (ok o) v h = h
  or_invalid-IsDriven id s err v h = v
