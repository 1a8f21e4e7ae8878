-- ===== src/IamRole/Operations/Success.antt =====
-- When `applyAction` of the role provider succeeds.
use componator_aws_providers.Prelude.{
  String, ◌≡◌, Bool, Option, none, some, List, [], inl, inr, Bool-cases,
}
use componator_aws_providers.Prelude.Int.{ℤ}
use componator_aws_providers.Prelude.Texts.{mem, set_of}
use componator_aws_providers.Prelude.Order.{sorted}
use componator_aws_providers.Go.{Message}
use componator_aws_providers.Go.Flow.{ok, rescue, continue, merge, body}
use componator_aws_providers.Aws.{to_string, to_iam_tags, Checker}
use componator_aws_providers.Toolkit.{ActionResult, action_success}
use componator_aws_providers.Json.{Json, json_equals}
use componator_aws_providers.IamRole.Config.{IamRoleConfig, IamRoleStatus, resolve_spec}
use componator_aws_providers.IamRole.Client.{Role, IamRoleClient}
use componator_aws_providers.IamRole.Attachments.{IsLawful, Answers}
use componator_aws_providers.IamRole.Calls.{get_role_by_name, create_role, update_trust_policy}
use componator_aws_providers.IamRole.Reconcile.{PolicyReconciliationResult}
use componator_aws_providers.IamRole.Reconcile.Success.{reconcile_ok}
use componator_aws_providers.IamRole.Operations.{
  with_role, with_policies, created_details, updated_details, reconcile_into, create_branch,
  update_branch, apply_branch, apply_validated, apply_action,
}
use componator_aws_providers.IamRole.Operations.Applied.{apply_action-Applied}

module _ {W : Type 0} (json : Json) (checkers : List Checker) (client : IamRoleClient W)
    (answers : Answers client) where
  abbrev Succeeds : ActionResult IamRoleStatus → Type 0
  Succeeds r = (s : IamRoleStatus) × (m : Message) × (r ≡ action_success s m)

  reconcile_into-Succeeds :
      (spec : IamRoleConfig) (status : IamRoleStatus) (f : String)
      (details : IamRoleStatus → PolicyReconciliationResult → Message) (w : W)
      → Succeeds (body (reconcile_into json checkers client spec status f details) w).0
  unfolding reconcile_into
  reconcile_into-Succeeds spec status f details w =
      let (r, h) = reconcile_ok client answers spec.role_name spec.managed_policy_arns w in
      let status' = with_policies status (some r) in
      (status', details status' r, rw (h, rescue, continue, merge))

  trust_policy_updated :
      (name current desired : String) (w : W)
      → (update_trust_policy client json name current desired w).0 ≡ ok tt
  unfolding update_trust_policy
  trust_policy_updated name current desired w =
      elim (Bool-cases (json_equals json current desired)) [
        | inl same ↦ rw same
        | inr differ ↦ rw (differ, answers.updates name desired w, rescue)
      ]

  role_created :
      (name trust path description : String) (duration : ℤ) (tags : List (String × String)) (w : W)
      → (role : Role) × ((create_role client name trust path description duration tags w).0
          ≡ ok role)
  unfolding create_role
  role_created name trust path description duration tags w =
      let (role, h) =
        answers.creates
          (record {
            role_name = name;
            assume_role_policy_document = trust;
            path = path;
            max_session_duration = duration;
            description = description;
            tags = to_iam_tags tags;
          })
          w in
      (role, rw (h, rescue))

  apply_branch-Succeeds :
      (spec : IamRoleConfig) (status : IamRoleStatus) (role : Option Role) (w : W)
      → Succeeds (body (apply_branch json checkers client spec status role) w).0
  unfolding create_branch update_branch
  apply_branch-Succeeds spec status none w =
      let (role, h) =
        role_created spec.role_name spec.assume_role_policy spec.path spec.description
          spec.max_session_duration spec.tags w in
      rw (h, rescue, continue)
        (reconcile_into-Succeeds spec (with_role status role) _ (λ s. created_details s.role_name)
          _)
  apply_branch-Succeeds spec status (some role) w =
      rw
        (
          trust_policy_updated spec.role_name (to_string role.assume_role_policy_document)
              spec.assume_role_policy w,
          rescue,
          continue,
        )
        (reconcile_into-Succeeds spec (with_role status role) _ (λ s. updated_details s.role_name)
          _)

  apply_action-Succeeds :
      (spec spec' : IamRoleConfig) (status : IamRoleStatus) (w : W)
      → resolve_spec json spec ≡ ok spec'
      → Succeeds (apply_action json checkers client spec status w).0
  unfolding apply_action get_role_by_name
  apply_action-Succeeds spec spec' status w h = elim (answers.gets spec'.role_name w) [
    | inl (role, g) ↦
        rw (h, apply_validated)
          (rw (g, rescue, continue) (apply_branch-Succeeds spec' status (some role) _))
    | inr (e, g, missing) ↦
        rw (h, apply_validated)
          (rw (g, rescue) (rw (missing, continue) (apply_branch-Succeeds spec' status none _)))
  ]

  pub apply_action_succeeds :
      (attached : W → String → String → Bool)
      → IsLawful client attached
      → (spec spec' : IamRoleConfig) (status : IamRoleStatus) (w : W)
      → resolve_spec json spec ≡ ok spec'
      → (s : IamRoleStatus) × (m : Message) × ((apply_action json checkers client spec status w).0
          ≡ action_success s m)
        × ((a : String)
            → attached (apply_action json checkers client spec status w).1 spec.role_name a
              ≡ mem a spec.managed_policy_arns)
        × (s.attached_policies ≡ sorted (set_of [] spec.managed_policy_arns))
  apply_action_succeeds attached lawful spec spec' status w h =
      let (s, m, e) = apply_action-Succeeds spec spec' status w h in
      let (exact, listed) =
        rw e at (apply_action-Applied json checkers client attached lawful spec status w) in
      (s, m, e, exact, listed)
