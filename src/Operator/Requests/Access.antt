-- ===== src/Operator/Requests/Access.antt =====
-- `Handle`: the requests for which no administrator is needed: greeting, events, views and signing in.
use humanoid_common.Prelude.{
  ℕ, ◌+◌, Bool, true, false, ◌&&◌, ◌||◌, not, [], ◌∷◌, Text, text, codes, text_eq, ◌==◌, leb, ltb,
  if◌then◌else◌, is_empty, length, any_of, member, Option, none, some, Result, ok, ◌>>=◌,
}
use humanoid_common.Floats.{Float}
use humanoid_common.Operator.Libraries.{Json, QrCode}
use humanoid_common.Operator.Data.{Session, Service, next_number}
use humanoid_common.Operator.Names.{token_equal}
use humanoid_common.Operator.Sessions.{set_session}
use humanoid_common.Operator.Input.{online, clear_input}
use humanoid_common.Operator.Views.{
  Reply, ReplyCode, done, pending, bad_request, unauthorized, not_owner, unsupported, busy,
  rate_limited, reply_to, nothing, greeting, pairing_content, pairing_url, pairing_svg, catalog,
  status_message,
}

-- The service after a request, and the reply. Where reading a field throws, there is neither.
abbrev pub Outcome : Type 0 → Type 0
Outcome F = Service F × Reply F

module _ {F : Type 0} where
  abbrev pub refuse : ℕ → ReplyCode → Text → Service F → Outcome F
  refuse id code message s = (s, reply_to id false code message nothing)

  abbrev pub grant : ℕ → Text → Service F → Outcome F
  grant id message s = (s, reply_to id true done message nothing)

  -- The session of the client, written back into the table.
  abbrev pub put_session : ℕ → Session → Service F → Service F
  put_session k me s = record s { sessions = set_session k me s.sessions }

-- Names of clients have 1 to 48 bytes, and no control characters.
unfoldable pub valid_name : Text → Bool
valid_name name =
    not (is_empty name || (ltb 48 (length name) || any_of (λ c. ltb c 32 || c == 127) name))

-- The events that a client may report.
unfoldable pub known_event : Text → Bool
known_event event = member event (
    codes "direction_down"
    ∷ codes "manual_disconnect"
    ∷ codes "page_hidden"
    ∷ codes "pagehide"
    ∷ codes "protocol_error"
    ∷ codes "ui_error"
    ∷ codes "script_error"
    ∷ codes "promise_error"
    ∷ codes "velocity_rejected"
    ∷ codes "teleop_preset"
    ∷ [])

module _ {F : Type 0} where
  unfoldable pub pairing : (Text → QrCode) → ℕ → Service F → Outcome F
  pairing encode id s =
      if s.config.terminal_only
      then refuse id unsupported (text "terminal-only mode has no pairing entry") s
      else let url = pairing_url s.config in
        (s, reply_to id true done [] (pairing_content url (pairing_svg encode url)))

module _ {F : Type 0} ⦃f : Float F⦄ where
  -- The window of attempts that holds `now`: a new one where the last is over.
  abbrev pub login_window : F → Service F → Service F
  login_window now s =
      if f.le s.login_window_until now
      then record s { login_attempts = 0; login_window_until = f.add now (f.lit 30 0) }
      else s

  unfoldable pub admin_logout : ℕ → ℕ → Session → Service F → Outcome F
  unfolding clear_input
  admin_logout id k me s =
      let t = if s.owner == k then clear_input (text "administrator signed out") s else s in
      grant id (text "administrator signed out")
        (record (put_session k
          (record me { admin = is_empty s.config.admin_password_hash; login_error = [] }) t) {
            login_session = if t.login_session == k then 0 else t.login_session;
          })

module _ {F J : Type 0} ⦃f : Float F⦄ ⦃j : Json F J⦄ where
  unfoldable pub hello : F → ℕ → ℕ → Session → J → Service F → Result (Outcome F)
  hello now id k me args s =
      if me.authenticated
      then ok (refuse id bad_request (text "already authenticated") s)
      else j.text_or args (text "token") [] >>= λ token.
          let control = token_equal token s.config.control_token in
          if not control && not (token_equal token s.config.token)
          then ok (refuse id unauthorized (text "invalid token") s)
          else j.text_or args (text "name") (text "client") >>= λ name.
              if not (valid_name name)
              then ok (refuse id bad_request (text "invalid client name") s)
              else let t =
                  put_session k
                    (record me {
                      authenticated = true;
                      admin = control || is_empty s.config.admin_password_hash;
                      name = name;
                    })
                    s in
                ok (
                  t,
                  reply_to id true done (text "authenticated")
                      (greeting (catalog t) (status_message now k t)),
                )

  -- The event is logged; only the choice of a speed preset is kept.
  unfoldable pub client_event : F → ℕ → ℕ → J → Service F → Result (Outcome F)
  unfolding online
  client_event now id k args s = j.text_or args (text "event") [] >>= λ event.
      j.text_or args (text "detail") [] >>= λ detail.
      if not (known_event event) || ltb 1024 (length detail)
      then ok (refuse id bad_request (text "invalid client event") s)
      else if text_eq event (codes "teleop_preset")
      then (if not (text_eq detail (codes "slow")) && not (text_eq detail (codes "fast"))
          then ok (refuse id bad_request (text "unknown speed preset") s)
          else if not (s.owner == k) || not (online now s)
          then ok (refuse id not_owner (text "acquire control first") s)
          else ok (
              grant id (text "client event recorded") (record s {
                teleop_preset = detail;
                teleop_preset_sequence = next_number s.teleop_preset_sequence;
              })))
      else ok (grant id (text "client event recorded") s)

  -- Where no check of a password is running, one is started, five times in a window at most.
  unfoldable pub start_login :
      Option Text → F → ℕ → ℕ → Session → J → Service F → Result (Outcome F)
  start_login (some running) now id k me args s =
      ok (refuse id busy (text "password verification is in progress") s)
  start_login none now id k me args s = j.text_or args (text "password") [] >>= λ password.
      if is_empty password || ltb 128 (length password)
      then ok (refuse id bad_request (text "invalid password length") s)
      else let t = login_window now s in
        if leb 5 t.login_attempts
        then ok (refuse id rate_limited (text "wait before retrying administrator login") t)
        else ok (
          record (put_session k (record me { login_error = [] }) t) {
            login_attempts = t.login_attempts + 1;
            login_result = some password;
            login_session = k;
          },
          reply_to id true pending (text "verifying administrator password") nothing,
        )

  unfoldable pub admin_login : F → ℕ → ℕ → Session → J → Service F → Result (Outcome F)
  unfolding start_login
  admin_login now id k me args s =
      if me.admin
      then ok (grant id (text "already authorized") s)
      else start_login s.login_result now id k me args s
