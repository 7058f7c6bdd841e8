-- ===== src/Operator/Effects.antt =====
-- Rules for what holds of the service after a request, whichever way the request ends.
use humanoid_common.Prelude.{Result, ok, err, ◌>>=◌}
use humanoid_common.Operator.Data.{Service}
use humanoid_common.Operator.Requests.Access.{Outcome}
use humanoid_common.Operator.Requests.Actions.{Step, answered, prepared}

module _ {F : Type 0} (P : Service F → Type 0) where
  -- A request ends with a service that has the property, or by an exception.
  abbrev pub Ends : Result (Outcome F) → Type 0
  Ends (ok o) = P o.0
  Ends err = Unit

  abbrev pub Goes : Step F → Type 0
  Goes (answered o) = P o.0
  Goes (prepared s) = P s

  abbrev pub EndsStep : Result (Step F) → Type 0
  EndsStep (ok step) = Goes step
  EndsStep err = Unit

  pub Ends-bind :
      {A : Type 0} (m : Result A) (g : A → Result (Outcome F))
      → ((a : A) → Ends (g a))
      → Ends (m >>= g)
  Ends-bind (ok a) g h = h a
  Ends-bind err g h = tt

  pub EndsStep-bind :
      {A : Type 0} (m : Result A) (g : A → Result (Step F))
      → ((a : A) → EndsStep (g a))
      → EndsStep (m >>= g)
  EndsStep-bind (ok a) g h = h a
  EndsStep-bind err g h = tt
