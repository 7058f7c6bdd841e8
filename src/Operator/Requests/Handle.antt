-- ===== src/Operator/Requests/Handle.antt =====
-- `Handle`: the checks that all requests pass, and the choice of the operation.
use humanoid_common.Prelude.{
  ℕ, Bool, true, false, ◌&&◌, ◌||◌, not, [], Text, text, codes, text_eq, ◌==◌, leb, ltb,
  if◌then◌else◌, pos, int_eq, Option, none, some, Result, ok, err, ◌>>=◌,
}
use humanoid_common.Floats.{Float}
use humanoid_common.Operator.Libraries.{Json, Crypto, QrCode}
use humanoid_common.Operator.Data.{Op, op_of, Session, Service, is_accepted}
use humanoid_common.Operator.Sessions.{find_session}
use humanoid_common.Operator.Input.{online}
use humanoid_common.Operator.Tick.{tick}
use humanoid_common.Operator.Feedback.{is_ack}
use humanoid_common.Operator.Views.{
  done, bad_request, unauthorized, not_owner, busy, admin_required, not_ready, fault, reply_to,
  status_content, catalog_content, catalog, status_message,
}
use humanoid_common.Operator.Requests.Access.{
  Outcome, refuse, put_session, hello, client_event, pairing, admin_login, admin_logout,
}
use humanoid_common.Operator.Requests.Control.{stop, release, acquire, renew, give_way, velocity}
use humanoid_common.Operator.Requests.Actions.{Step, answered, prepared, prepare, submit}

-- The largest integer that a JavaScript client represents exactly.
abbrev pub max_request_id : ℕ
max_request_id = 9007199254740991

abbrev pub is_safety_request : Op → Text → Bool
is_safety_request Op.state target =
    text_eq target (codes "DAMP") || text_eq target (codes "POWER_OFF")
is_safety_request op target = false

abbrev pub is_power_off_request : Op → Text → Bool
is_power_off_request Op.state target = text_eq target (codes "POWER_OFF")
is_power_off_request op target = false

abbrev pub finish_step : {F : Type 0} ⦃f : Float F⦄ → F → ℕ → Op → Step F → Outcome F
finish_step now id op (answered o) = o
finish_step now id op (prepared s) = submit now id op s

-- The version and the number of a request.
unfoldable pub read_id : {J : Type 0} (F : Type 0) ⦃j : Json F J⦄ → J → Result (Option ℕ)
read_id F ⦃j⦄ request =
    if not (j.is_object request)
    then ok none
    else j.int_or request (text "v") (pos 0) >>= λ v.
        if not (int_eq v (pos 1)) || not (j.contains request (text "id"))
        then ok none
        else j.at request (text "id") >>= λ value.
            if j.is_unsigned value then (j.get_unsigned value >>= λ id. ok (some id)) else ok none

abbrev pub is_replayed : ℕ → Session → Bool
is_replayed id me = id == 0 || (ltb max_request_id id || leb id me.last_id)

abbrev pub or_invalid : {F : Type 0} → ℕ → Service F → Result (Outcome F) → Outcome F
or_invalid id s (ok o) = o
or_invalid id s err = refuse id bad_request (text "invalid message fields") s

module _ {F J : Type 0} ⦃f : Float F⦄ ⦃j : Json F J⦄ where
  -- Requests other than driving: one at a time, and only a safe state or an acknowledgement under a fault.
  unfoldable pub request_confirmed : F → ℕ → Op → Text → J → Service F → Result (Outcome F)
  unfolding prepare submit
  request_confirmed now id op target args s =
      if is_accepted s.result.phase
      then ok (refuse id busy (text "waiting for control to confirm previous request") s)
      else if s.fault.latched && (not (is_safety_request op target) && not (is_ack (some op)))
      then ok (refuse id fault (text "fault is latched") s)
      else prepare now id op target args s >>= λ step. ok (finish_step now id op step)

  unfoldable pub as_owner : F → ℕ → ℕ → Op → Text → J → Service F → Result (Outcome F)
  as_owner now id k Op.velocity target args s = velocity now id args s
  as_owner now id k op target args s = request_confirmed now id op target args s

  unfoldable pub command_request : F → ℕ → ℕ → Op → J → Service F → Result (Outcome F)
  command_request now id k op args s = j.text_or args (text "state") [] >>= λ target.
      if not (online now s) && not (is_power_off_request op target)
      then ok (refuse id not_ready (text "control feedback is unavailable") s)
      else if not (s.owner == k) && not (is_safety_request op target)
      then ok (refuse id not_owner (text "acquire control first") s)
      else as_owner now id k op target args
          (if is_safety_request op target then give_way now k s else s)

  unfoldable pub as_admin : F → ℕ → ℕ → Op → J → Service F → Result (Outcome F)
  as_admin now id k Op.stop args s = ok (stop id s)
  as_admin now id k Op.release args s = ok (release id k s)
  as_admin now id k Op.acquire args s = ok (acquire now id k s)
  as_admin now id k Op.renew args s = ok (renew now id k s)
  as_admin now id k op args s = command_request now id k op args s

  -- The requests of a client that has greeted.
  unfoldable pub as_client :
      (Text → QrCode) → F → ℕ → ℕ → Op → Session → J → Service F → Result (Outcome F)
  unfolding client_event pairing admin_login admin_logout as_admin
  as_client encode now id k Op.client_event me args s = client_event now id k args s
  as_client encode now id k Op.status me args s =
      ok (s, reply_to id true done [] (status_content (status_message now k s)))
  as_client encode now id k Op.catalog me args s =
      ok (s, reply_to id true done [] (catalog_content (catalog s)))
  as_client encode now id k Op.pairing me args s = ok (pairing encode id s)
  as_client encode now id k Op.admin_login me args s = admin_login now id k me args s
  as_client encode now id k Op.admin_logout me args s = ok (admin_logout id k me s)
  as_client encode now id k op me args s =
      if me.admin
      then as_admin now id k op args s
      else ok (refuse id admin_required (text "administrator login required") s)

  unfoldable pub dispatch :
      (Text → QrCode) → F → ℕ → ℕ → Op → Session → J → Service F → Result (Outcome F)
  unfolding hello as_client
  dispatch encode now id k Op.hello me args s = hello now id k me args s
  dispatch encode now id k op me args s =
      if me.authenticated
      then as_client encode now id k op me args s
      else ok (refuse id unauthorized (text "authenticate first") s)

  -- A request whose number is new: the number is kept whatever comes of the rest.
  unfoldable pub operate :
      (Text → QrCode) → F → ℕ → ℕ → Session → J → Service F → Result (Outcome F)
  unfolding op_of dispatch
  operate encode now id k me request s = j.at request (text "op") >>= λ name.
      j.get_text name >>= λ op. j.object_or_empty request (text "args") >>= λ args.
      if j.is_object args
      then dispatch encode now id k (op_of op) me args s
      else ok (refuse id bad_request (text "args must be an object") s)

  -- A request of a session that is in the table, or not.
  unfoldable pub admit_from :
      (Text → QrCode) → Option Session → F → ℕ → ℕ → J → Service F → Outcome F
  unfolding operate
  admit_from encode none now id k request s =
      refuse id bad_request (text "invalid or replayed request id") s
  admit_from encode (some me) now id k request s =
      if is_replayed id me
      then refuse id bad_request (text "invalid or replayed request id") s
      else let me' = record me { last_id = id } in
        let t = put_session k me' s in or_invalid id t (operate encode now id k me' request t)

  unfoldable pub admit_request : (Text → QrCode) → F → ℕ → ℕ → J → Service F → Outcome F
  unfolding admit_from
  admit_request encode now id k request s =
      admit_from encode (find_session k s.sessions) now id k request s

  abbrev pub with_id : (Text → QrCode) → F → ℕ → J → Service F → Result (Option ℕ) → Outcome F
  with_id encode now k request s err = refuse 0 bad_request (text "invalid message fields") s
  with_id encode now k request s (ok none) = refuse 0 bad_request (text "invalid version or id") s
  with_id encode now k request s (ok (some id)) = admit_request encode now id k request s

  unfoldable pub handle : ⦃c : Crypto⦄ → (Text → QrCode) → F → Bool → ℕ → J → Service F → Outcome F
  unfolding tick read_id admit_request
  handle encode now ready k request s =
      let t = tick now ready s in with_id encode now k request t (read_id F request)
