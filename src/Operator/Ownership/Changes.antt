-- ===== src/Operator/Ownership/Changes.antt =====
-- What a request may change of the table of sessions, of the owner and of the running login.
use humanoid_common.Prelude.{
  ℕ, ◌≡◌, ◌≢◌, ◌⊎◌, inl, inr, refl, true, false, not, ◌||◌, ◌&&◌, Text, text, codes, text_eq,
  if◌then◌else◌, if_either, if_split, Bool-cases, leb, ltb, length, is_empty, none, some, Option,
  Result, ok, err, arith, ◌==◌, [],
}
use humanoid_common.Floats.{Float}
use humanoid_common.Operator.Libraries.{Json, QrCode}
use humanoid_common.Operator.Data.{Op, op_of, Session, Service}
use humanoid_common.Operator.Names.{token_equal}
use humanoid_common.Operator.Sessions.{set_session}
use humanoid_common.Operator.Input.{online}
use humanoid_common.Operator.Effects.{Ends, Ends-bind}
use humanoid_common.Operator.Requests.Access.{
  Outcome, valid_name, known_event, hello, client_event, pairing, start_login, login_window,
  admin_login, admin_logout,
}
use humanoid_common.Operator.Requests.Handle.{as_admin, as_client, dispatch, operate}
use humanoid_common.Operator.Ownership.Keeps.{
  Keeps, as_admin-Keeps, sessions-clear_input, clear_input-owner,
}

-- `t` comes of `s` by a request of client `k` with session `me`.
pub data Change {F : Type 0} (k : ℕ) (me : Session) (s t : Service F) : Type 0 where
  -- The table stays, and control goes to nobody else, or to an administrator who asks.
  quiet :
      t.sessions ≡ s.sessions
      → t.login_session ≡ s.login_session
      → (t.owner ≡ s.owner)
        ⊎ ((t.owner ≡ 0) ⊎ ((t.owner ≡ k) × (me.authenticated ≡ true) × (me.admin ≡ true)))
      → Change k me s t
  -- A client greets for the first time.
  greeted :
      (you : Session)
      → t.sessions ≡ set_session k you s.sessions
      → you.last_id ≡ me.last_id
      → me.authenticated ≡ false
      → t.login_session ≡ s.login_session
      → t.owner ≡ s.owner
      → Change k me s t
  -- A client that is not an administrator asks to become one.
  asked :
      (you : Session)
      → t.sessions ≡ set_session k you s.sessions
      → you.last_id ≡ me.last_id
      → (me.admin ≡ false) × (you.admin ≡ false)
      → (me.authenticated ≡ true) × (you.authenticated ≡ true)
      → t.login_session ≡ k
      → t.owner ≡ s.owner
      → Change k me s t
  -- A client signs out: it has neither control nor a login that runs.
  left :
      (you : Session)
      → t.sessions ≡ set_session k you s.sessions
      → you.last_id ≡ me.last_id
      → (t.owner ≡ 0) ⊎ ((t.owner ≡ s.owner) × (s.owner ≢ k))
      → (t.login_session ≡ 0) ⊎ ((t.login_session ≡ s.login_session) × (s.login_session ≢ k))
      → Change k me s t

module _ {F : Type 0} (k : ℕ) (me : Session) (s : Service F) where
  abbrev pub unchanged : Change k me s s
  unchanged = quiet refl refl (inl refl)

module _ {F : Type 0} ⦃f : Float F⦄ where
  admit_owner :
      (k : ℕ) (me : Session) (s t : Service F)
      → me.authenticated ≡ true
      → me.admin ≡ true
      → Keeps k s t
      → Change k me s t
  admit_owner k me s t a b h = quiet h.sessions h.login (ground (arith, a, b, h.owner))

  admin_logout-Change :
      (id k : ℕ) (me : Session) (s : Service F) → Change k me s (admin_logout id k me s).0
  unfolding admin_logout
  admin_logout-Change id k me s =
      let (c, l) = sessions-clear_input (text "administrator signed out") s in
      let o = clear_input-owner (text "administrator signed out") s in
      elim (Bool-cases (s.owner == k)) [
        | inl e ↦
            rw (e, c, l)
              (left (record me { admin = is_empty s.config.admin_password_hash; login_error = [] })
                refl refl (inl o) (login_of s.login_session))
        | inr e ↦ rw e (
            left (record me { admin = is_empty s.config.admin_password_hash; login_error = [] })
              refl refl (inr (refl, ground (arith, e))) (login_of s.login_session))
      ]
    where
      login_of :
          (n : ℕ) → ((if n == k then 0 else n) ≡ 0) ⊎ (((if n == k then 0 else n) ≡ n) × (n ≢ k))
      login_of n = ground arith

  pairing-Change :
      (encode : Text → QrCode) (id k : ℕ) (me : Session) (s : Service F)
      → Change k me s (pairing encode id s).0
  unfolding pairing
  pairing-Change encode id k me s =
      if_either (λ (o : Outcome F). Change k me s o.0) s.config.terminal_only (unchanged k me s)
        (unchanged k me s)

  windowed :
      (now : F) (s : Service F)
      → ((login_window now s).sessions ≡ s.sessions)
        × ((login_window now s).login_session ≡ s.login_session)
        × ((login_window now s).owner ≡ s.owner)
  windowed now s =
      if_either
        (λ (t : Service F).
          (t.sessions ≡ s.sessions) × (t.login_session ≡ s.login_session) × (t.owner ≡ s.owner))
        (f.le s.login_window_until now) (refl, refl, refl) (refl, refl, refl)

module _ {F J : Type 0} ⦃f : Float F⦄ ⦃j : Json F J⦄ (k : ℕ) (me : Session) (s : Service F) where
  as_admin-Change :
      (now : F) (id : ℕ) (op : Op) (args : J)
      → me.authenticated ≡ true
      → me.admin ≡ true
      → Ends (Change k me s) (as_admin now id k op args s)
  as_admin-Change now id op args a b =
      widen (as_admin now id k op args s) (as_admin-Keeps k s now id op args)
    where
      widen : (r : Result (Outcome F)) → Ends (Keeps k s) r → Ends (Change k me s) r
      widen (ok o) h = admit_owner k me s o.0 a b h
      widen err h = tt

  client_event-Change :
      (now : F) (id : ℕ) (args : J) → Ends (Change k me s) (client_event now id k args s)
  unfolding client_event
  client_event-Change now id args =
      let same = unchanged k me s in
      Ends-bind (Change k me s) (j.text_or args (text "event") []) _ λ event.
        Ends-bind (Change k me s) (j.text_or args (text "detail") []) _ λ detail.
          if_either (Ends (Change k me s)) (not (known_event event) || ltb 1024 (length detail))
            same
            (if_either (Ends (Change k me s)) (text_eq event (codes "teleop_preset"))
              (if_either (Ends (Change k me s))
                (not (text_eq detail (codes "slow")) && not (text_eq detail (codes "fast"))) same
                (if_either (Ends (Change k me s)) (not (s.owner == k) || not (online now s)) same
                  (quiet refl refl (inl refl))))
              same)

  start_login-Change :
      (o : Option Text) (now : F) (id : ℕ) (args : J)
      → me.authenticated ≡ true
      → me.admin ≡ false
      → Ends (Change k me s) (start_login o now id k me args s)
  unfolding start_login
  start_login-Change (some running) now id args a b = unchanged k me s
  start_login-Change none now id args a b =
      let (w, l, o) = windowed now s in
      Ends-bind (Change k me s) (j.text_or args (text "password") []) _ λ password.
        if_either (Ends (Change k me s)) (is_empty password || ltb 128 (length password))
          (unchanged k me s)
          (if_either (Ends (Change k me s)) (leb 5 (login_window now s).login_attempts)
            (quiet w l (inl o))
            (asked (record me { login_error = [] }) (rw w refl) refl (b, b) (a, a) refl o))

  hello-Change : (now : F) (id : ℕ) (args : J) → Ends (Change k me s) (hello now id k me args s)
  unfolding hello
  hello-Change now id args =
      let same = unchanged k me s in
      if_split (Ends (Change k me s)) me.authenticated (λ _. same)
        λ a. Ends-bind (Change k me s) (j.text_or args (text "token") []) _ λ token.
          if_either (Ends (Change k me s))
            (not (token_equal token s.config.control_token)
              && not (token_equal token s.config.token))
            same
            (Ends-bind (Change k me s) (j.text_or args (text "name") (text "client")) _ λ name.
              if_either (Ends (Change k me s)) (not (valid_name name)) same (
                greeted
                  (record me {
                    authenticated = true;
                    admin =
                        token_equal token s.config.control_token
                        || is_empty s.config.admin_password_hash;
                    name = name;
                  })
                  refl refl a refl refl))

  as_client-Change :
      (encode : Text → QrCode) (now : F) (id : ℕ) (op : Op) (args : J)
      → me.authenticated ≡ true
      → Ends (Change k me s) (as_client encode now id k op me args s)
  unfolding as_client admin_login
  as_client-Change encode now id op args a =
      let same = unchanged k me s in
      elim op as (λ o. Ends (Change k me s) (as_client encode now id k o me args s)) [
        | Op.client_event ↦ client_event-Change now id args
        | Op.status ↦ same
        | Op.catalog ↦ same
        | Op.pairing ↦ pairing-Change encode id k me s
        | Op.admin_login ↦
            if_split (Ends (Change k me s)) me.admin (λ _. same)
              λ b. start_login-Change s.login_result now id args a b
        | Op.admin_logout ↦ admin_logout-Change id k me s
        | o ↦
            if_split (Ends (Change k me s)) me.admin (λ b. as_admin-Change now id o args a b)
              (λ _. same)
      ]

  dispatch-Change :
      (encode : Text → QrCode) (now : F) (id : ℕ) (op : Op) (args : J)
      → Ends (Change k me s) (dispatch encode now id k op me args s)
  unfolding dispatch
  dispatch-Change encode now id op args =
      elim op as (λ o. Ends (Change k me s) (dispatch encode now id k o me args s)) [
        | Op.hello ↦ hello-Change now id args
        | o ↦
            if_split (Ends (Change k me s)) me.authenticated
              (λ a. as_client-Change encode now id o args a) (λ _. unchanged k me s)
      ]

  -- Every request of a session that is in the table is one of these changes.
  pub operate-Change :
      (encode : Text → QrCode) (now : F) (id : ℕ) (request : J)
      → Ends (Change k me s) (operate encode now id k me request s)
  unfolding operate
  operate-Change encode now id request =
      Ends-bind (Change k me s) (j.at request (text "op")) _ λ name.
        Ends-bind (Change k me s) (j.get_text name) _ λ op.
          Ends-bind (Change k me s) (j.object_or_empty request (text "args")) _ λ args.
            if_either (Ends (Change k me s)) (j.is_object args)
              (dispatch-Change encode now id (op_of op) args) (unchanged k me s)
