-- ===== src/IamPolicy/Operations.antt =====
-- iampolicy/operations.go: the four handlers of the policy provider.
pub mod Applied
pub mod Runs
pub mod Reading
pub mod Kept
pub mod Made
pub mod Gone
pub mod Absent
use componator_aws_providers.Prelude.{
  String, Option, none, some, List, [], ◌∷◌, ◌==◌, if◌then◌else◌,
}
use componator_aws_providers.Go.{GoError, text, text_err, str, errorf, wrapf}
use componator_aws_providers.Go.Flow.{Result, ok, err, Proc, pure, ◌>>=◌, ◌>>◌, ◌or_return◌, body}
use componator_aws_providers.Aws.{to_string, Checker, is_retryable}
use componator_aws_providers.Toolkit.{
  ActionResult, action_success, action_failure, action_result_for_error, CheckResult,
  check_complete, check_in_progress, check_result_for_error,
}
use componator_aws_providers.Json.{Json}
use componator_aws_providers.IamPolicy.Config.{IamPolicyConfig, IamPolicyStatus, resolve_spec}
use componator_aws_providers.IamPolicy.Client.{Policy, IamPolicyClient}
use componator_aws_providers.IamPolicy.Calls.{
  get_policy_by_name, get_policy_by_arn, create_policy, delete_policy,
}
use componator_aws_providers.IamPolicy.Versions.{create_policy_version, delete_policy_all_versions}

-- The status after a policy is read: `Arn`, `PolicyId` and `PolicyName` of the answer.
abbrev pub with_policy : IamPolicyStatus → Policy → IamPolicyStatus
with_policy status policy = record status {
  policy_arn = to_string policy.arn;
  policy_id = to_string policy.policy_id;
  policy_name = to_string policy.policy_name;
}

-- The parameters: the JSON library, the retry checkers of the SDK, and the IAM client.
module _ {W : Type 0} (json : Json) (checkers : List Checker) (client : IamPolicyClient W) where
  -- `functional.ActionResultForError(status, fmt.Errorf(f, err), iamErrorClassifier)`
  abbrev pub failed : IamPolicyStatus → String → GoError → ActionResult IamPolicyStatus
  failed status f e = action_result_for_error status (wrapf f [] e) (is_retryable checkers)

  abbrev check_failed : IamPolicyStatus → String → GoError → CheckResult IamPolicyStatus
  check_failed status f e = check_result_for_error status (wrapf f [] e) (is_retryable checkers)

  -- `applyAction` after the search for the policy.
  unfoldable pub apply_branch :
      IamPolicyConfig
      → IamPolicyStatus
      → Option Policy
      → Proc W (ActionResult IamPolicyStatus) (ActionResult IamPolicyStatus)
  apply_branch spec status none = do
    policy ←
        create_policy client spec.policy_name spec.policy_document spec.path spec.description
          spec.tags
        or_return failed status "failed to create policy: %w"
    let status' = record (with_policy status policy) {
      current_version_id = to_string policy.default_version_id;
    }
    pure (action_success status' (text "Created policy %s" (str status'.policy_name ∷ [])))
  apply_branch spec status (some existing_policy) = do
    let status' = with_policy status existing_policy
    version_id ←
        create_policy_version client status'.policy_arn json spec.policy_document
        or_return failed status' "failed to update policy version: %w"
    pure (
        action_success (record status' { current_version_id = version_id })
          (text "Updated policy %s to version %s" (str status'.policy_name ∷ str version_id ∷ [])))

  -- `applyAction` from the validated configuration on.
  unfoldable pub apply_resolved :
      IamPolicyConfig
      → IamPolicyStatus
      → Proc W (ActionResult IamPolicyStatus) (ActionResult IamPolicyStatus)
  unfolding apply_branch
  apply_resolved spec status = do
    existing_policy ←
        get_policy_by_name client spec.policy_name spec.path
        or_return failed status "failed to check if policy exists: %w"
    apply_branch spec status existing_policy

  abbrev apply_validated :
      IamPolicyStatus → Result GoError IamPolicyConfig → W → ActionResult IamPolicyStatus × W
  apply_validated status (err e) w =
      (action_failure status (text_err "config validation failed: %v" e), w)
  apply_validated status (ok spec) w = body (apply_resolved spec status) w

  -- `applyAction`
  unfoldable pub apply_action :
      IamPolicyConfig → IamPolicyStatus → W → ActionResult IamPolicyStatus × W
  unfolding apply_resolved
  apply_action spec status w = apply_validated status (resolve_spec json spec) w

  abbrev applied_result : IamPolicyStatus → Option Policy → CheckResult IamPolicyStatus
  applied_result status none =
      check_result_for_error status
        (errorf "policy not found at ARN %s" (str status.policy_arn ∷ [])) (is_retryable checkers)
  applied_result status (some policy) =
      let status' = with_policy status policy in
      check_complete status' (
        text "Policy %s ready (version %s)"
          (str status'.policy_name ∷ str status'.current_version_id ∷ []))

  -- `checkApplied`
  unfoldable pub check_applied : IamPolicyStatus → W → CheckResult IamPolicyStatus × W
  check_applied status w =
      if status.policy_arn == ""
      then (check_in_progress status (text "" []), w)
      else body
          (do
            policy ←
                get_policy_by_arn client status.policy_arn
                or_return check_failed status "failed to check policy status: %w"
            pure (applied_result status policy))
          w

  -- `deleteAction` after the policy was looked up.
  unfoldable pub delete_branch :
      IamPolicyStatus
      → Option Policy
      → Proc W (ActionResult IamPolicyStatus) (ActionResult IamPolicyStatus)
  delete_branch status none = pure (action_success status (text "Policy already deleted" []))
  delete_branch status (some policy) = do
    delete_policy_all_versions client status.policy_arn
        or_return failed status "failed to delete policy versions: %w"
    delete_policy client status.policy_arn or_return failed status "failed to delete policy: %w"
    pure (action_success status (text "Deleting policy %s" (str status.policy_name ∷ [])))

  -- `deleteAction`
  unfoldable pub delete_action : IamPolicyStatus → W → ActionResult IamPolicyStatus × W
  unfolding delete_branch
  delete_action status w =
      if status.policy_arn == ""
      then (action_success status (text "No policy to delete" []), w)
      else body
          (do
            policy ←
                get_policy_by_arn client status.policy_arn
                or_return failed status "failed to check policy existence: %w"
            delete_branch status policy)
          w

  abbrev deleted_result : IamPolicyStatus → Option Policy → CheckResult IamPolicyStatus
  deleted_result status (some policy) =
      check_in_progress status (text "Waiting for policy %s deletion" (str status.policy_name ∷ []))
  deleted_result status none =
      check_complete status (text "Policy %s deleted" (str status.policy_name ∷ []))

  -- `checkDeleted`
  unfoldable pub check_deleted : IamPolicyStatus → W → CheckResult IamPolicyStatus × W
  check_deleted status w =
      if status.policy_arn == ""
      then (check_complete status (text "" []), w)
      else body
          (do
            policy ←
                get_policy_by_arn client status.policy_arn
                or_return check_failed status "failed to check policy deletion status: %w"
            pure (deleted_result status policy))
          w
