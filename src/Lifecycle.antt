-- ===== src/Lifecycle.antt =====
-- A provider as its `Register` hands it to the componentkit library, and the calls that a controller
-- may make of it. The library is not part of the repository, so nothing is taken for granted of the
-- order of the calls: a controller calls the handlers in any order and as often as it wants, it
-- stores the status of a result or loses it, and others change the world in between.
use componator_aws_providers.Prelude.{ℕ, String, Bool, true, false, Option, none, some}
use componator_aws_providers.Toolkit.{
  NamespacedName, ActionResult, CheckResult, HealthCheckResult, action_status, check_status,
}

-- What `functional.NewBuilder[C, S](name)` is given: the handlers, and the times between two calls in
-- seconds, where a provider sets them.
pub record Provider (W C S : Type 0) : Type 0 where
  pub provider_name : String
  pub apply : NamespacedName → C → S → W → ActionResult S × W
  pub apply_check : Option (NamespacedName → C → S → W → CheckResult S × W)
  pub delete : NamespacedName → C → S → W → ActionResult S × W
  pub delete_check : Option (NamespacedName → C → S → W → CheckResult S × W)
  pub health_check : Option (NamespacedName → C → S → W → HealthCheckResult × W)
  pub health_check_interval : Option ℕ
  pub error_requeue : Option ℕ
  pub default_requeue : Option ℕ
  pub status_check_requeue : Option ℕ

-- A call of a handler.
pub data Call : Type 0 where
  apply : Call
  apply_check : Call
  delete : Call
  delete_check : Call
  health_check : Call

abbrev pub is_apply : Call → Bool
is_apply Call.apply = true
is_apply Call.apply_check = false
is_apply Call.delete = false
is_apply Call.delete_check = false
is_apply Call.health_check = false

abbrev pub is_delete : Call → Bool
is_delete Call.apply = false
is_delete Call.apply_check = false
is_delete Call.delete = true
is_delete Call.delete_check = false
is_delete Call.health_check = false

module _ {W C S : Type 0} (name : NamespacedName) (spec : C) where
  abbrev after_action : ActionResult S × W → S × W
  after_action (r, w) = (action_status r, w)

  abbrev after_check : CheckResult S × W → S × W
  after_check (r, w) = (check_status r, w)

  abbrev checked : Option (NamespacedName → C → S → W → CheckResult S × W) → S × W → S × W
  checked none x = x
  checked (some f) (s, w) = after_check (f name spec s w)

  abbrev health_checked :
      Option (NamespacedName → C → S → W → HealthCheckResult × W) → S × W → S × W
  health_checked none x = x
  health_checked (some f) (s, w) = (s, (f name spec s w).1)

  -- The status of the result, or the status before for a health check, and the next world. A call of
  -- a handler that the provider does not have changes nothing.
  abbrev pub called : Provider W C S → Call → S × W → S × W
  called p Call.apply (s, w) = after_action (p.apply name spec s w)
  called p Call.apply_check x = checked p.apply_check x
  called p Call.delete (s, w) = after_action (p.delete name spec s w)
  called p Call.delete_check x = checked p.delete_check x
  called p Call.health_check x = health_checked p.health_check x

module _ {W C S : Type 0} (p : Provider W C S) (name : NamespacedName) (spec : C)
    (others : W → W → Type 0) (allowed : Call → Type 0) where
  -- A step of a component whose configuration stays `spec`: an allowed call whose status is stored,
  -- one whose status is lost, or a change that `others` make.
  pub data Step : S × W → S × W → Type 0 where
    stored : (k : Call) → allowed k → (x : S × W) → Step x (called name spec p k x)
    lost : (k : Call) → allowed k → (x : S × W) → Step x (x.0, (called name spec p k x).1)
    changed : (s : S) (w w' : W) → others w w' → Step (s, w) (s, w')

  pub data Reach (x : S × W) : S × W → Type 0 where
    here : Reach x x
    next : {y z : S × W} → Reach x y → Step y z → Reach x z

  module _ {ℓ} (P : S × W → Type ℓ)
      (keeps : (k : Call)
        → allowed k
        → (x : S × W) → P x
        → P (called name spec p k x) × P (x.0, (called name spec p k x).1))
      (unmoved : (s : S) (w w' : W) → others w w' → P (s, w) → P (s, w')) where
    Step_keeps : {x y : S × W} → Step x y → P x → P y
    Step_keeps (stored k a x) h = (keeps k a x h).0
    Step_keeps (lost k a x) h = (keeps k a x h).1
    Step_keeps (changed s w w' o) h = unmoved s w w' o h

    -- What every call and every change keeps holds in all that can be reached.
    pub Reach_keeps : {x y : S × W} → Reach x y → P x → P y
    Reach_keeps here h = h
    Reach_keeps (next r st) h = Step_keeps st (Reach_keeps r h)
