-- ===== src/Operator/Driving/Handle.antt =====
-- That no request moves the robot but a velocity of the owner's within limits: the invariant through `Handle`.
use humanoid_common.Prelude.{
  ℕ, ◌≡◌, ◌≢◌, refl, true, not, ◌||◌, ◌&&◌, [], Text, text, text_eq, if_either, if_split, pos,
  int_between, none, some, Option, codes, arith, length, ltb, leb, ◌==◌, is_empty,
}
use humanoid_common.Floats.{Float, IsOrdered}
use humanoid_common.Operator.Libraries.{Json}
use humanoid_common.Operator.Data.{Policy, Session, Service}
use humanoid_common.Operator.Input.{active_policy, online}
use humanoid_common.Operator.Names.{token_equal}
use humanoid_common.Operator.Effects.{Ends, Ends-bind}
use humanoid_common.Operator.Requests.Access.{
  hello, client_event, start_login, valid_name, known_event, login_window,
}
use humanoid_common.Operator.Requests.Control.{velocity_for, velocity, healthy_rl, float_at}
use humanoid_common.Operator.Requests.Actions.{}
use humanoid_common.Operator.Requests.Handle.{}
use humanoid_common.Operator.Stability.{Leaves}
use humanoid_common.Operator.Driving.Defs.{IsDriven}
use humanoid_common.Operator.Driving.Requests.{
  drive-IsDriven, stop-IsDriven, release-IsDriven, acquire-IsDriven, renew-IsDriven,
  give_way-IsDriven, ask_state-Goes, ask_listed-Goes, ask_action-Goes, ask_reference-Goes,
  ask_ack-Goes, submit-IsDriven,
}

module _ {F : Type 0} ⦃f : Float F⦄ where
  windowed : (now : F) (s : Service F) → IsDriven s → IsDriven (login_window now s)
  windowed now s v =
      if_either IsDriven (f.le s.login_window_until now)
        (record { limits = v.limits; moves = v.moves }) v

module _ {F J : Type 0} ⦃f : Float F⦄ ⦃j : Json F J⦄ where
  velocity_for-Ends :
      (law : IsOrdered f) (o : Option (Policy F)) (now : F) (id : ℕ) (args : J) (s : Service F)
      → s.owner ≢ 0
      → healthy_rl s ≡ true
      → active_policy s ≡ o
      → IsDriven s
      → Ends IsDriven (velocity_for o now id args s)
  unfolding velocity_for
  velocity_for-Ends law none now id args s k h e v = v
  velocity_for-Ends law (some p) now id args s k h e v =
      Ends-bind IsDriven (float_at args (text "vx")) _ λ vx.
        Ends-bind IsDriven (float_at args (text "vy")) _ λ vy.
          Ends-bind IsDriven (float_at args (text "wz")) _ λ wz.
            Ends-bind IsDriven (j.int_or args (text "valid_for_ms") (pos 300)) _ λ ttl.
              if_split (Ends IsDriven)
                (not (f.is_finite vx && (f.is_finite vy && f.is_finite wz))
                  || not (int_between 50 1000 ttl))
                (λ _. v) λ fin. drive-IsDriven law now vx vy wz _ p s k h v e (ground (arith, fin))

  velocity-Ends :
      (law : IsOrdered f) (now : F) (id : ℕ) (args : J) (s : Service F)
      → s.owner ≢ 0
      → IsDriven s
      → Ends IsDriven (velocity now id args s)
  unfolding velocity
  velocity-Ends law now id args s k v =
      if_split (Ends IsDriven) (not (healthy_rl s)) (λ _. v)
        λ h. velocity_for-Ends law _ now id args s k (ground (arith, h)) refl v

  pub driving_leaves : (law : IsOrdered f) (k : ℕ) → k ≢ 0 → Leaves {F = F} J k IsDriven
  driving_leaves law k z = record {
    stop = stop-IsDriven;
    release = λ id s v. release-IsDriven id k s v;
    acquire = λ now id s v. acquire-IsDriven now id k s v;
    renew = λ now id s v. renew-IsDriven now id k s v;
    give_way = λ now s v. give_way-IsDriven now k s v;
    velocity = λ now id args s o v. velocity-Ends law now id args s (ground (arith, o, z)) v;
    ask_state = ask_state-Goes;
    ask_listed = ask_listed-Goes;
    ask_action = ask_action-Goes;
    ask_reference = ask_reference-Goes;
    ask_ack = ask_ack-Goes;
    submit = λ now id op s v. submit-IsDriven now id op s v;
  }

  pub client_event-Ends :
      (now : F) (id k : ℕ) (args : J) (s : Service F)
      → IsDriven s
      → Ends IsDriven (client_event now id k args s)
  unfolding client_event
  client_event-Ends now id k args s v =
      Ends-bind IsDriven (j.text_or args (text "event") []) _ λ event.
        Ends-bind IsDriven (j.text_or args (text "detail") []) _ λ detail.
          if_either (Ends IsDriven) (not (known_event event) || ltb 1024 (length detail)) v (
            if_either (Ends IsDriven) (text_eq event (codes "teleop_preset"))
              (if_either (Ends IsDriven)
                (not (text_eq detail (codes "slow")) && not (text_eq detail (codes "fast"))) v
                (if_either (Ends IsDriven) (not (s.owner == k) || not (online now s)) v
                  (record { limits = v.limits; moves = v.moves })))
              v)

  pub start_login-Ends :
      (o : Option Text) (now : F) (id k : ℕ) (me : Session) (args : J) (s : Service F)
      → IsDriven s
      → Ends IsDriven (start_login o now id k me args s)
  unfolding start_login
  start_login-Ends (some running) now id k me args s v = v
  start_login-Ends none now id k me args s v =
      let w = windowed now s v in
      Ends-bind IsDriven (j.text_or args (text "password") []) _ λ password.
        if_either (Ends IsDriven) (is_empty password || ltb 128 (length password)) v (
          if_either (Ends IsDriven) (leb 5 (login_window now s).login_attempts) w
            (record { limits = w.limits; moves = w.moves }))

  pub hello-Ends :
      (now : F) (id k : ℕ) (me : Session) (args : J) (s : Service F)
      → IsDriven s
      → Ends IsDriven (hello now id k me args s)
  unfolding hello
  hello-Ends now id k me args s v = if_either (Ends IsDriven) me.authenticated v (
      Ends-bind IsDriven (j.text_or args (text "token") []) _ λ token.
        if_either (Ends IsDriven)
          (not (token_equal token s.config.control_token) && not (token_equal token s.config.token))
          v
          (Ends-bind IsDriven (j.text_or args (text "name") (text "client")) _ λ name.
            if_either (Ends IsDriven) (not (valid_name name)) v
              (record { limits = v.limits; moves = v.moves })))
