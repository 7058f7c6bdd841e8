-- ===== src/Operator/Tests.antt =====
-- The theorems on the operator service, at a service with one policy and JSON values of a small kind.
use humanoid_common.Prelude.{
  ℕ, ◌*◌, ◌≡◌, refl, true, false, List, [], ◌∷◌, Text, text, codes, text_eq, if◌then◌else◌, ℤ, pos,
  negsuc, some, none, Result, ok, err, arith, is_empty, inl, All,
}
use humanoid_common.Floats.{Milli, milli, Milli-IsOrdered}
use humanoid_common.RobotBase.{ControlStatus, initial_status, no_fault}
use humanoid_common.RobotBase.ControlMode
use humanoid_common.Operator.Libraries.{Json, Crypto, QrCode}
use humanoid_common.Operator.Data.{
  Velocity, Policy, Config, Service, Op, fresh, new_session, accepted,
}
use humanoid_common.Operator.Names.{token_equal, token_equal_iff, differs}
use humanoid_common.Operator.Input.{velocity_of}
use humanoid_common.Operator.Tick.{tick}
use humanoid_common.Operator.Requests.Access
use humanoid_common.Operator.Requests.Control
use humanoid_common.Operator.Requests.Handle
use humanoid_common.Operator.Requests.Handle.{handle, as_admin}
use humanoid_common.Operator.Events.{Event, opened, requested, reported, run_events}
use humanoid_common.Operator.Driving.Defs.{HasLimits, still, IsDriven}
use humanoid_common.Operator.Driving.Sequences.{run_events-IsDriven}
use humanoid_common.Operator.Ownership.Tables.{IsOwned}
use humanoid_common.Operator.Ownership.Sequences.{run_events-IsOwned}
use humanoid_common.Operator.Ownership.Replay.{replay-refused}
use humanoid_common.Operator.Expiry.{Decided, lapsed_control_ends, tick-Decided}
use humanoid_common.Operator.Stopping.{Cuts, power_off_is_accepted}

token_equal_iff_example : (codes "key" ≡ codes "key") × (is_empty (codes "key") ≡ false)
unfolding token_equal differs
token_equal_iff_example = (token_equal_iff (codes "key") (codes "key")).0 refl

-- A JSON value: nothing, a text, a number, a real, or an object by its fields.
data Value : Type 0 where
  absent : Value
  word : Text → Value
  whole : ℕ → Value
  real : Milli → Value
  fields : (Text → Value) → Value

abbrev field : Value → Text → Value
field (fields g) k = g k
field v k = absent

abbrev present : Value → Result Value
present absent = err
present v = ok v

abbrev text_of : Text → Value → Result Text
text_of d absent = ok d
text_of d (word t) = ok t
text_of d v = err

abbrev int_of : ℤ → Value → Result ℤ
int_of d absent = ok d
int_of d (whole n) = ok (pos n)
int_of d v = err

abbrev object_of : Value → Value
object_of absent = fields (λ k. absent)
object_of v = v

instance abbrev values : Json Milli Value
values = record {
  is_object = λ v. elim v [ fields g ↦ true | _ ↦ false ];
  contains = λ v k. elim (field v k) [ absent ↦ false | _ ↦ true ];
  is_unsigned = λ v. elim v [ whole n ↦ true | _ ↦ false ];
  at = λ v k. present (field v k);
  get_unsigned = λ v. elim v [ whole n ↦ ok n | _ ↦ err ];
  get_text = λ v. elim v [ word t ↦ ok t | _ ↦ err ];
  get_float = λ v. elim v [ real x ↦ ok x | _ ↦ err ];
  text_or = λ v k d. text_of d (field v k);
  int_or = λ v k d. int_of d (field v k);
  object_or_empty = λ v k. ok (object_of (field v k));
}

instance abbrev no_crypto : Crypto
no_crypto = record { derive_key = λ p s. none }

abbrev no_code : Text → QrCode
no_code t = record { size = 0; module_at = λ x y. false }

abbrev number : ℕ → Milli
number n = some (pos (n * 1000))

abbrev speed : ℤ → Velocity Milli
speed x = record { vx = some x; vy = some x; wz = some x }

abbrev walk : Policy Milli
walk = record {
  name = codes "walk";
  manual_reference = false;
  minimum = speed (negsuc 999);
  maximum = speed (pos 1000);
  actions = [];
  client_smoothing = true;
  switch_group = [];
  display_name = codes "walk";
}

abbrev config : Config Milli
config = record {
  robot = codes "r";
  terminal_only = true;
  public_url = [];
  token = codes "a";
  control_token = codes "b";
  admin_password_hash = [];
  voice_chat_port = pos 0;
  status_timeout = number 1;
  request_timeout = number 15;
  lease_ms = 1000;
  velocity_step = speed (pos 100);
  teleop = record {
    deadzone = number 0;
    acceleration = speed (pos 1000);
    deceleration = speed (pos 1000);
    slow_limits = none;
    fast_limits = none;
  };
  policies = walk ∷ [];
  trajectory_enabled = false;
  actions = [];
}

-- A request by its number, its name and its arguments.
abbrev request : ℕ → Text → (Text → Value) → Value
request id op args = fields λ k.
    if text_eq k (codes "v")
    then whole 1
    else if text_eq k (codes "id")
    then whole id
    else if text_eq k (codes "op")
    then word op
    else if text_eq k (codes "args")
    then fields args
    else absent

abbrev greeting : Value
greeting =
    request 1 (codes "hello") (λ k. if text_eq k (codes "token") then word (codes "b") else absent)

abbrev ask_velocity : Value
ask_velocity = request 3 (codes "velocity") (λ k.
    if text_eq k (codes "valid_for_ms")
    then absent
    else if text_eq k (codes "state")
    then absent
    else real (number 2))

abbrev running : ControlStatus Milli
running = record initial_status {
  mode = ControlMode.rl;
  hmi_connected = true;
  active_policy = codes "walk";
}

-- A client greets, takes control of the running robot, and drives.
abbrev session_events : List (Event Milli Value)
session_events =
    opened
    ∷ requested (number 1) false 1 greeting
    ∷ reported (number 1) running no_fault
    ∷ reported (number 2) running no_fault
    ∷ requested (number 2) false 1 (request 2 (codes "acquire") (λ k. absent))
    ∷ requested (number 2) false 1 ask_velocity
    ∷ []

config_limits : All HasLimits config.policies
config_limits = ((refl, refl, refl), tt)

run_events-IsDriven_example : IsDriven (run_events no_code session_events (fresh config))
run_events-IsDriven_example =
    run_events-IsDriven Milli-IsOrdered no_code config session_events config_limits (omega arith)

run_events-IsOwned_example : IsOwned (run_events no_code session_events (fresh config))
run_events-IsOwned_example = run_events-IsOwned no_code config session_events

-- Driving works: the velocity of the command is the policy's maximum.
driving_test :
    velocity_of (run_events no_code session_events (fresh config))
    ≡ (some (pos 1000), some (pos 1000), some (pos 1000))
unfolding run_events handle tick text_eq text token_equal Access.valid_name Control.acquire
    Handle.command_request Handle.as_owner Control.velocity
driving_test = refl

-- The first request again, after the rest.
abbrev met : Service Milli
met = record (fresh config) { sessions = (1, new_session) ∷ [] }

greeted : (handle no_code (number 1) false 1 greeting met).1.ok ≡ true
unfolding handle tick text_eq text token_equal Access.valid_name
greeted = refl

replay-refused_example :
    let s = (handle no_code (number 1) false 1 greeting met).0 in
    (handle no_code (number 3) false 1 greeting (run_events no_code session_events s)).1.ok ≡ false
replay-refused_example =
    replay-refused no_code 1 (number 1) (number 3) false false greeting met session_events
      (omega arith) greeted

-- Session 1 has had control until the second second, and waits for the robot.
abbrev late : Service Milli
late = record met {
  owner = 1;
  lease_until = number 2;
  result = record { sequence = 4; operation = some Op.state; phase = accepted; message = [] };
  request_until = number 3;
}

late-IsDriven : IsDriven late
late-IsDriven = record { limits = config_limits; moves = inl refl }

lapsed_control_ends_example :
    ((tick (number 3) false late).owner ≡ 0) × (velocity_of (tick (number 3) false late) ≡ still)
lapsed_control_ends_example = lapsed_control_ends (number 3) false late late-IsDriven refl

tick-Decided_example : Decided 4 (tick (number 3) false late)
tick-Decided_example = tick-Decided (number 3) false late refl refl

abbrev to_power_off : Value
to_power_off = fields (λ k. if text_eq k (codes "state") then word (codes "POWER_OFF") else absent)

asks_power_off : values.text_or to_power_off (text "state") [] ≡ ok (codes "POWER_OFF")
unfolding text text_eq
asks_power_off = refl

power_off_is_accepted_example : Cuts (as_admin (number 3) 9 2 Op.state to_power_off late)
power_off_is_accepted_example =
    power_off_is_accepted (number 3) 9 2 to_power_off late asks_power_off
