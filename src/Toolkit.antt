-- ===== src/Toolkit.antt =====
-- The result builders of the componentkit library, which a handler returns the result of. The
-- library is not part of the repository, so a result is the call that the handler makes: the
-- builder with its arguments, and nothing is said of what the builder does with them.
use componator_aws_providers.Prelude.{String, Bool, true, false}
use componator_aws_providers.Go.{GoError, Message}
use componator_aws_providers.Aws.{Classifier}

-- `types.NamespacedName` of Kubernetes: the component that a handler is called for.
pub record NamespacedName : Type 0 where
  pub namespace : String
  pub name : String

-- `functional.ActionSuccess`, `ActionFailure` and `ActionResultForError`.
pub data ActionResult (S : Type 0) : Type 0 where
  action_success : S → Message → ActionResult S
  action_failure : S → Message → ActionResult S
  action_result_for_error : S → GoError → Classifier → ActionResult S

-- `functional.CheckComplete`, `CheckInProgress` and `CheckResultForError`.
pub data CheckResult (S : Type 0) : Type 0 where
  check_complete : S → Message → CheckResult S
  check_in_progress : S → Message → CheckResult S
  check_result_for_error : S → GoError → Classifier → CheckResult S

-- `controller.HealthCheckHealthy`, `HealthCheckDegraded` and `HealthCheckResultForError`.
pub data HealthCheckResult : Type 0 where
  health_check_healthy : Message → HealthCheckResult
  health_check_degraded : String → Message → HealthCheckResult
  health_check_result_for_error : GoError → Classifier → String → HealthCheckResult

module _ {S : Type 0} where
  -- The status that a result carries back.
  abbrev pub action_status : ActionResult S → S
  action_status (action_success s m) = s
  action_status (action_failure s m) = s
  action_status (action_result_for_error s e c) = s

  abbrev pub check_status : CheckResult S → S
  check_status (check_complete s m) = s
  check_status (check_in_progress s m) = s
  check_status (check_result_for_error s e c) = s

  abbrev pub is_in_progress : CheckResult S → Bool
  is_in_progress (check_complete s m) = false
  is_in_progress (check_in_progress s m) = true
  is_in_progress (check_result_for_error s e c) = false
