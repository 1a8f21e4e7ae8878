-- ===== src/Rds/Operations.antt =====
-- rds/operations.go: the four handlers of the RDS provider. A `switch` over the status is a chain
-- of tests for membership in the texts of its cases.
pub mod Answers
pub mod Secret
pub mod Ignored
pub mod Unnamed
use componator_aws_providers.Prelude.{
  String, Option, none, some, List, [], ◌∷◌, ◌==◌, if◌then◌else◌,
}
use componator_aws_providers.Prelude.Int.{ℤ}
use componator_aws_providers.Prelude.Texts.{mem}
use componator_aws_providers.Go.{GoError, Message, text, text_err, str, int, errorf, wrapf}
use componator_aws_providers.Go.Flow.{Result, ok, err, Proc, pure, ◌>>=◌, ◌>>◌, ◌or_return◌, body}
use componator_aws_providers.Aws.{Checker, is_retryable}
use componator_aws_providers.Toolkit.{
  ActionResult, action_success, action_failure, action_result_for_error, CheckResult,
  check_complete, check_in_progress, check_result_for_error,
}
use componator_aws_providers.Rds.Conversion.{string_value}
use componator_aws_providers.Rds.Status
use componator_aws_providers.Rds.Config.{RdsConfig, RdsStatus, resolve_spec}
use componator_aws_providers.Rds.Client.{MasterUserSecret, DbInstance, RdsClient}
use componator_aws_providers.Rds.Calls.{
  secret_or, get_instance_data, create_instance, modify_instance, delete_instance,
  update_status_from_instance,
}

-- The cases of the `switch` of `checkApplied`, in their order.
abbrev pub connectable : List String
connectable =
    Status.available ∷ Status.storage_optimization ∷ Status.backing_up
    ∷ Status.configuring_enhanced_monitoring ∷ Status.configuring_iam_database_auth
    ∷ Status.configuring_log_exports ∷ []

abbrev pub deploying : List String
deploying =
    Status.creating ∷ Status.upgrading ∷ Status.renaming ∷ Status.resetting_master_credentials ∷ []

abbrev pub transitional : List String
transitional = Status.maintenance ∷ Status.rebooting ∷ Status.starting ∷ []

abbrev pub broken : List String
broken =
    Status.failed ∷ Status.inaccessible_encryption_credentials ∷ Status.incompatible_network
    ∷ Status.incompatible_option_group ∷ Status.incompatible_parameters
    ∷ Status.incompatible_restore ∷ Status.insufficient_capacity ∷ Status.stopped ∷ Status.stopping
    ∷ Status.storage_full ∷ []

-- The capture of the managed password's secret after a creation.
abbrev capture_secret : RdsStatus → Option MasterUserSecret → RdsStatus
capture_secret status secret = record status {
  master_user_secret_arn = secret_or status.master_user_secret_arn secret;
}

-- The parameters: the retry checkers of the SDK, and the RDS client.
module _ {W : Type 0} (checkers : List Checker) (client : RdsClient W) where
  -- `functional.ActionResultForError(status, err, rdsErrorClassifier)`
  abbrev pub failed : RdsStatus → GoError → ActionResult RdsStatus
  failed status e = action_result_for_error status e (is_retryable checkers)

  abbrev pub check_failed : RdsStatus → GoError → CheckResult RdsStatus
  check_failed status e = check_result_for_error status e (is_retryable checkers)

  -- `applyAction` after the look-up of the instance.
  unfoldable pub apply_branch :
      RdsConfig
      → RdsStatus
      → Option DbInstance
      → Proc W (ActionResult RdsStatus) (ActionResult RdsStatus)
  apply_branch spec status (some existing) = do
    instance ← modify_instance client spec or_return failed status
    pure (
        action_success (update_status_from_instance status instance) (
          text "Modifying RDS instance %s (%s)"
            (str spec.instance_id ∷ str spec.instance_class ∷ [])))
  apply_branch spec status none = do
    created ← create_instance client spec or_return failed status
    pure (
        action_success
          (capture_secret (update_status_from_instance status (some created))
            created.master_user_secret)
          (text "Creating RDS instance %s (%s)"
            (str spec.instance_id ∷ str spec.instance_class ∷ [])))

  -- `applyAction` from the validated configuration on.
  unfoldable pub apply_resolved :
      RdsConfig → RdsStatus → Proc W (ActionResult RdsStatus) (ActionResult RdsStatus)
  unfolding apply_branch
  apply_resolved spec status = do
    existing ← get_instance_data client spec.instance_id or_return λ e.
        failed status (wrapf "failed to check RDS instance existence: %w" [] e)
    apply_branch spec status existing

  abbrev apply_validated : RdsStatus → Result GoError RdsConfig → W → ActionResult RdsStatus × W
  apply_validated status (err e) w =
      (action_failure status (text_err "config validation failed: %v" e), w)
  apply_validated status (ok spec) w = body (apply_resolved spec status) w

  -- `applyAction`
  unfoldable pub apply_action : RdsConfig → RdsStatus → W → ActionResult RdsStatus × W
  unfolding apply_resolved
  apply_action spec status w = apply_validated status (resolve_spec spec) w

  abbrev status_details : String → RdsStatus → Message
  status_details instance_id status =
      text "Instance %s status: %s" (str instance_id ∷ str status.instance_status ∷ [])

  -- The `switch` of `checkApplied`.
  unfoldable pub applied_by_status : String → RdsStatus → CheckResult RdsStatus
  applied_by_status instance_id status =
      if mem status.instance_status connectable
      then check_complete status (
          text "Instance %s available at %s:%d"
            (str instance_id ∷ str status.endpoint ∷ int status.port ∷ []))
      else if status.instance_status == Status.modifying
      then check_in_progress status (status_details instance_id status)
      else if mem status.instance_status deploying
      then check_in_progress status (status_details instance_id status)
      else if mem status.instance_status transitional
      then check_in_progress status (status_details instance_id status)
      else if mem status.instance_status broken
      then check_failed status (
          errorf "RDS instance deployment failed with status: %s" (str status.instance_status ∷ []))
      else check_in_progress status (text "" [])

  abbrev applied_result : RdsConfig → RdsStatus → Option DbInstance → CheckResult RdsStatus
  applied_result spec status none =
      check_failed status
        (errorf "RDS instance %s not found during deployment check" (str spec.instance_id ∷ []))
  applied_result spec status (some i) =
      applied_by_status spec.instance_id (update_status_from_instance status (some i))

  -- `checkApplied`
  unfoldable pub check_applied : RdsConfig → RdsStatus → W → CheckResult RdsStatus × W
  unfolding applied_by_status
  check_applied spec status = body do
    found ← get_instance_data client spec.instance_id or_return λ e.
        check_failed status (wrapf "failed to describe RDS instance: %w" [] e)
    pure (applied_result spec status found)

  abbrev deletion_result : RdsConfig → RdsStatus → Option DbInstance → ActionResult RdsStatus
  deletion_result spec status none = action_success status (text "RDS instance already deleted" [])
  deletion_result spec status (some i) =
      action_success (update_status_from_instance status (some i))
        (text "Deleting RDS instance %s" (str spec.instance_id ∷ []))

  -- `deleteAction`
  unfoldable pub delete_action : RdsConfig → RdsStatus → W → ActionResult RdsStatus × W
  delete_action spec status = body do
    deleted ← delete_instance client spec or_return failed status
    pure (deletion_result spec status deleted)

  -- The `switch` of `checkDeleted`.
  unfoldable pub deleted_by_status : String → RdsStatus → CheckResult RdsStatus
  deleted_by_status instance_id status =
      if status.instance_status == Status.deleting
      then check_in_progress status (text "Waiting for instance %s deletion" (str instance_id ∷ []))
      else if status.instance_status == Status.failed
      then check_complete status (text "" [])
      else check_in_progress status (text "" [])

  abbrev deleted_result : RdsConfig → RdsStatus → Option DbInstance → CheckResult RdsStatus
  deleted_result spec status none =
      check_complete status (text "Instance %s deleted" (str spec.instance_id ∷ []))
  deleted_result spec status (some i) =
      deleted_by_status spec.instance_id
        (record status { instance_status = string_value i.db_instance_status })

  -- `checkDeleted`
  unfoldable pub check_deleted : RdsConfig → RdsStatus → W → CheckResult RdsStatus × W
  unfolding deleted_by_status
  check_deleted spec status = body do
    found ← get_instance_data client spec.instance_id or_return λ e.
        check_failed status (wrapf "failed to describe RDS instance during deletion check: %w" [] e)
    pure (deleted_result spec status found)
