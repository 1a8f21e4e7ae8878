-- ===== src/Rds/Health.antt =====
-- rds/health.go: the health of a ready instance.
pub mod Agreement
use componator_aws_providers.Prelude.{
  String, Option, none, some, List, [], ◌∷◌, ◌==◌, if◌then◌else◌,
}
use componator_aws_providers.Prelude.Texts.{mem}
use componator_aws_providers.Go.{GoError, Message, text, str}
use componator_aws_providers.Go.Flow.{Proc, pure, ◌>>=◌, ◌or_return◌, body}
use componator_aws_providers.Aws.{Checker, is_retryable}
use componator_aws_providers.Toolkit.{
  HealthCheckResult, health_check_healthy, health_check_degraded, health_check_result_for_error,
}
use componator_aws_providers.Rds.Conversion.{string_value}
use componator_aws_providers.Rds.Status
use componator_aws_providers.Rds.Config.{RdsConfig}
use componator_aws_providers.Rds.Client.{DbInstance, RdsClient}
use componator_aws_providers.Rds.Calls.{get_instance_data}

-- The cases of the `switch` of `checkHealth`, in their order.
abbrev pub operational : List String
operational =
    Status.available ∷ Status.storage_optimization ∷ Status.backing_up
    ∷ Status.configuring_enhanced_monitoring ∷ Status.configuring_iam_database_auth
    ∷ Status.configuring_log_exports ∷ Status.modifying ∷ []

abbrev pub under_maintenance : List String
under_maintenance = Status.maintenance ∷ Status.rebooting ∷ []

abbrev pub not_running : List String
not_running = Status.stopped ∷ Status.stopping ∷ Status.starting ∷ []

abbrev pub in_error : List String
in_error =
    Status.failed ∷ Status.inaccessible_encryption_credentials ∷ Status.incompatible_network
    ∷ Status.incompatible_option_group ∷ Status.incompatible_parameters
    ∷ Status.incompatible_restore ∷ Status.insufficient_capacity ∷ []

-- The `switch` of `checkHealth`.
unfoldable pub health_by_status : String → String → HealthCheckResult
health_by_status instance_id status =
    if mem status operational
    then health_check_healthy
        (text "Instance %s is operational (status: %s)" (str instance_id ∷ str status ∷ []))
    else if status == Status.storage_full
    then health_check_degraded "StorageFull"
        (text "Instance %s storage capacity exhausted" (str instance_id ∷ []))
    else if mem status under_maintenance
    then health_check_degraded "Maintenance"
        (text "Instance %s undergoing maintenance (status: %s)" (str instance_id ∷ str status ∷ []))
    else if mem status not_running
    then health_check_degraded "Stopped"
        (text "Instance %s is not running (status: %s)" (str instance_id ∷ str status ∷ []))
    else if mem status in_error
    then health_check_degraded "Failed"
        (text "Instance %s in error state: %s" (str instance_id ∷ str status ∷ []))
    else health_check_degraded "UnknownStatus"
        (text "Instance %s in unknown state: %s" (str instance_id ∷ str status ∷ []))

abbrev health_result : RdsConfig → Option DbInstance → HealthCheckResult
health_result spec none =
    health_check_degraded "InstanceDeleted"
      (text "RDS instance %s not found in AWS" (str spec.instance_id ∷ []))
health_result spec (some i) = health_by_status spec.instance_id (string_value i.db_instance_status)

-- `checkHealth`
unfoldable pub check_health :
    {W : Type 0} → List Checker → RdsClient W → RdsConfig → W → HealthCheckResult × W
unfolding health_by_status
check_health checkers client spec = body do
  found ← get_instance_data client spec.instance_id or_return λ e.
      health_check_result_for_error e (is_retryable checkers) "APIError"
  pure (health_result spec found)
