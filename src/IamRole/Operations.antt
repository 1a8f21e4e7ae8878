-- ===== src/IamRole/Operations.antt =====
-- iamrole/operations.go: the four handlers of the role provider.
pub mod Runs
pub mod Refinement
pub mod Gone
pub mod Absent
pub mod Applied
pub mod Success
pub mod Sent
pub mod Deleted
use componator_aws_providers.Prelude.{
  ℕ, suc, String, Option, none, some, List, [], ◌∷◌, length, ◌==◌, ◌||◌, not, if◌then◌else◌,
}
use componator_aws_providers.Prelude.Int.{pos, is_nonpos}
use componator_aws_providers.Go.{GoError, Message, text, text_err, str, int, errorf, wrapf}
use componator_aws_providers.Go.Flow.{Result, ok, err, Proc, pure, ◌>>=◌, ◌>>◌, ◌or_return◌, body}
use componator_aws_providers.Aws.{to_string, Checker, is_retryable}
use componator_aws_providers.Toolkit.{
  ActionResult, action_success, action_failure, action_result_for_error, CheckResult,
  check_complete, check_in_progress, check_result_for_error,
}
use componator_aws_providers.Json.{Json}
use componator_aws_providers.IamRole.Config.{IamRoleConfig, IamRoleStatus, resolve_spec}
use componator_aws_providers.IamRole.Client.{Role, IamRoleClient}
use componator_aws_providers.IamRole.Calls.{
  get_role_by_name, list_attached_policies, create_role, update_trust_policy, detach_policy,
  delete_role,
}
use componator_aws_providers.IamRole.Reconcile.{
  PolicyReconciliationResult, reconcile_policy_attachments,
}

-- The status after a role is read: `Arn`, `RoleId` and `RoleName` of the answer.
abbrev pub with_role : IamRoleStatus → Role → IamRoleStatus
with_role status role = record status {
  role_arn = to_string role.arn;
  role_id = to_string role.role_id;
  role_name = to_string role.role_name;
}

-- `if result != nil { status.AttachedPolicies = result.AttachedPolicies }`
abbrev pub with_policies : IamRoleStatus → Option PolicyReconciliationResult → IamRoleStatus
with_policies status none = status
with_policies status (some r) = record status { attached_policies = r.attached_policies }

abbrev created_details : String → PolicyReconciliationResult → Message
created_details role_name r =
    text "Created role %s with %d policies"
      (str role_name ∷ int (pos (length r.attached_policies)) ∷ [])

abbrev updated_details : String → PolicyReconciliationResult → Message
updated_details role_name r =
    if not (is_nonpos r.attached_count) || not (is_nonpos r.detached_count)
    then text "Updated role %s: attached %d, detached %d, total %d policies" (
        str role_name
        ∷ int r.attached_count
        ∷ int r.detached_count
        ∷ int (pos (length r.attached_policies))
        ∷ [])
    else text "Role %s unchanged with %d policies"
        (str role_name ∷ int (pos (length r.attached_policies)) ∷ [])

-- The parameters: the JSON library, the retry checkers of the SDK, and the IAM client.
module _ {W : Type 0} (json : Json) (checkers : List Checker) (client : IamRoleClient W) where
  -- `functional.ActionResultForError(status, fmt.Errorf(f, err), iamErrorClassifier)`
  abbrev pub failed : IamRoleStatus → String → GoError → ActionResult IamRoleStatus
  failed status f e = action_result_for_error status (wrapf f [] e) (is_retryable checkers)

  abbrev check_failed : IamRoleStatus → String → GoError → CheckResult IamRoleStatus
  check_failed status f e = check_result_for_error status (wrapf f [] e) (is_retryable checkers)

  -- The attachments of a role that is there; `f` is the format of the error.
  unfoldable pub reconcile_into :
      IamRoleConfig
      → IamRoleStatus
      → String
      → (IamRoleStatus → PolicyReconciliationResult → Message)
      → Proc W (ActionResult IamRoleStatus) (ActionResult IamRoleStatus)
  reconcile_into spec status f details = do
    result ←
        reconcile_policy_attachments client spec.role_name spec.managed_policy_arns
        or_return λ failure. failed (with_policies status failure.result) f failure.error
    let status' = with_policies status (some result)
    pure (action_success status' (details status' result))

  -- The branch of `applyAction` in which the role is not there.
  unfoldable pub create_branch :
      IamRoleConfig
      → IamRoleStatus
      → Proc W (ActionResult IamRoleStatus) (ActionResult IamRoleStatus)
  unfolding reconcile_into
  create_branch spec status = do
    role ←
        create_role client spec.role_name spec.assume_role_policy spec.path spec.description
          spec.max_session_duration spec.tags
        or_return failed status "failed to create role: %w"
    reconcile_into spec (with_role status role) "failed to attach policies: %w"
        λ s. created_details s.role_name

  -- The branch in which the role is there.
  unfoldable pub update_branch :
      IamRoleConfig
      → IamRoleStatus
      → Role
      → Proc W (ActionResult IamRoleStatus) (ActionResult IamRoleStatus)
  unfolding reconcile_into
  update_branch spec status role = do
    let status' = with_role status role
    update_trust_policy client json spec.role_name (to_string role.assume_role_policy_document)
          spec.assume_role_policy
        or_return failed status' "failed to update trust policy: %w"
    reconcile_into spec status' "failed to reconcile policy attachments: %w"
        λ s. updated_details s.role_name

  abbrev apply_branch :
      IamRoleConfig
      → IamRoleStatus
      → Option Role
      → Proc W (ActionResult IamRoleStatus) (ActionResult IamRoleStatus)
  apply_branch spec status none = create_branch spec status
  apply_branch spec status (some role) = update_branch spec status role

  -- `applyAction` from the validated configuration on.
  unfoldable pub apply_resolved :
      IamRoleConfig
      → IamRoleStatus
      → Proc W (ActionResult IamRoleStatus) (ActionResult IamRoleStatus)
  unfolding create_branch update_branch
  apply_resolved spec status = do
    existing_role ←
        get_role_by_name client spec.role_name
        or_return failed status "failed to check if role exists: %w"
    apply_branch spec status existing_role

  abbrev apply_validated :
      IamRoleStatus → Result GoError IamRoleConfig → W → ActionResult IamRoleStatus × W
  apply_validated status (err e) w =
      (action_failure status (text_err "config validation failed: %v" e), w)
  apply_validated status (ok spec) w = body (apply_resolved spec status) w

  -- `applyAction`
  unfoldable pub apply_action : IamRoleConfig → IamRoleStatus → W → ActionResult IamRoleStatus × W
  unfolding apply_resolved
  apply_action spec status w = apply_validated status (resolve_spec json spec) w

  abbrev applied_result : IamRoleConfig → IamRoleStatus → Option Role → CheckResult IamRoleStatus
  applied_result spec status none =
      check_result_for_error status (errorf "role not found: %s" (str spec.role_name ∷ []))
        (is_retryable checkers)
  applied_result spec status (some role) =
      let status' = with_role status role in
      check_complete status' (
        text "Role %s ready with %d policies"
          (str status'.role_name ∷ int (pos (length status'.attached_policies)) ∷ []))

  -- `checkApplied`
  unfoldable pub check_applied : IamRoleConfig → IamRoleStatus → W → CheckResult IamRoleStatus × W
  check_applied spec status w =
      if status.role_arn == ""
      then (check_in_progress status (text "" []), w)
      else body
          (do
            role ←
                get_role_by_name client spec.role_name
                or_return check_failed status "failed to check role status: %w"
            pure (applied_result spec status role))
          w

  -- The loop of `deleteAction`; it gives the number of detached policies.
  unfoldable pub detach_all :
      IamRoleConfig → IamRoleStatus → List String → ℕ → Proc W (ActionResult IamRoleStatus) ℕ
  detach_all spec status [] detached_count = pure detached_count
  detach_all spec status (policy_arn ∷ rest) detached_count = do
    detach_policy client spec.role_name policy_arn or_return λ e.
        action_result_for_error status
          (wrapf "failed to detach policy %s: %w" (str policy_arn ∷ []) e) (is_retryable checkers)
    detach_all spec status rest (suc detached_count)

  -- `deleteAction` for a role that is there.
  unfoldable pub delete_branch :
      IamRoleConfig
      → IamRoleStatus
      → Option Role
      → Proc W (ActionResult IamRoleStatus) (ActionResult IamRoleStatus)
  unfolding detach_all
  delete_branch spec status none = pure (action_success status (text "Role already deleted" []))
  delete_branch spec status (some role) = do
    attached_policies ←
        list_attached_policies client spec.role_name
        or_return failed status "failed to list attached policies: %w"
    detached_count ← detach_all spec status attached_policies 0
    delete_role client spec.role_name or_return failed status "failed to delete role: %w"
    pure (
        action_success status (
          text "Deleting role %s (detached %d policies)"
            (str spec.role_name ∷ int (pos detached_count) ∷ [])))

  -- `deleteAction`
  unfoldable pub delete_action : IamRoleConfig → IamRoleStatus → W → ActionResult IamRoleStatus × W
  unfolding delete_branch
  delete_action spec status = body do
    role ←
        get_role_by_name client spec.role_name
        or_return failed status "failed to check if role exists: %w"
    delete_branch spec status role

  abbrev deleted_result : IamRoleConfig → IamRoleStatus → Option Role → CheckResult IamRoleStatus
  deleted_result spec status none =
      check_complete status (text "Role %s deleted" (str spec.role_name ∷ []))
  deleted_result spec status (some role) =
      check_in_progress status (text "Waiting for role %s deletion" (str spec.role_name ∷ []))

  -- `checkDeleted`
  unfoldable pub check_deleted : IamRoleConfig → IamRoleStatus → W → CheckResult IamRoleStatus × W
  check_deleted spec status = body do
    role ←
        get_role_by_name client spec.role_name
        or_return check_failed status "failed to check role deletion status: %w"
    pure (deleted_result spec status role)
