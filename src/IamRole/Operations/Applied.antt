-- ===== src/IamRole/Operations/Applied.antt =====
-- What a successful `applyAction` of the role provider has done.
use componator_aws_providers.Prelude.{String, ◌≡◌, inl, inr, Bool, Option, none, some, List, []}
use componator_aws_providers.Prelude.Texts.{mem, set_of}
use componator_aws_providers.Prelude.Order.{sorted}
use componator_aws_providers.Go.{Message}
use componator_aws_providers.Go.Flow.{rescue, continue, merge, body, Result-cases}
use componator_aws_providers.Aws.{to_string, Checker}
use componator_aws_providers.Toolkit.{
  ActionResult, action_success, action_failure, action_result_for_error,
}
use componator_aws_providers.Json.{Json}
use componator_aws_providers.IamRole.Config.{IamRoleConfig, IamRoleStatus, resolve_spec}
use componator_aws_providers.IamRole.Config.Resolution.{resolve_spec_keeps}
use componator_aws_providers.IamRole.Client.{Role, IamRoleClient}
use componator_aws_providers.IamRole.Attachments.{IsLawful}
use componator_aws_providers.IamRole.Calls.{get_role_by_name, create_role, update_trust_policy}
use componator_aws_providers.IamRole.Reconcile.{
  PolicyReconciliationResult, reconcile_policy_attachments,
}
use componator_aws_providers.IamRole.Reconcile.Exact.{reconcile-Reconciled}
use componator_aws_providers.IamRole.Operations.{
  with_role, created_details, updated_details, reconcile_into, create_branch, update_branch,
  apply_branch, apply_resolved, apply_validated, apply_action,
}

module _ {W : Type 0} (json : Json) (checkers : List Checker) (client : IamRoleClient W)
    (attached : W → String → String → Bool) (lawful : IsLawful client attached) where
  -- If the result is a success, exactly the policies `arns` are attached to `role`, and the status
  -- lists them, sorted and each once. Nothing is said of other results.
  abbrev pub Applied : String → List String → ActionResult IamRoleStatus × W → Type 0
  Applied role arns (action_success s m, w) =
      ((a : String) → attached w role a ≡ mem a arns)
      × (s.attached_policies ≡ sorted (set_of [] arns))
  Applied role arns (action_failure s m, w) = Unit
  Applied role arns (action_result_for_error s e c, w) = Unit

  reconcile_into-Applied :
      (spec : IamRoleConfig) (status : IamRoleStatus) (f : String)
      (details : IamRoleStatus → PolicyReconciliationResult → Message) (w : W)
      → Applied spec.role_name spec.managed_policy_arns
          (body (reconcile_into json checkers client spec status f details) w)
  unfolding reconcile_into
  reconcile_into-Applied spec status f details w =
      let done =
        reconcile-Reconciled client attached lawful spec.role_name spec.managed_policy_arns w in
      elim (Result-cases
        (reconcile_policy_attachments client spec.role_name spec.managed_policy_arns w).0) [
          | inl (e, h) ↦ rw (h, rescue, continue, merge) tt
          | inr (r, h) ↦ rw (h, rescue, continue, merge) (rw h at done)
        ]

  create_branch-Applied :
      (spec : IamRoleConfig) (status : IamRoleStatus) (w : W)
      → Applied spec.role_name spec.managed_policy_arns
          (body (create_branch json checkers client spec status) w)
  unfolding create_branch
  create_branch-Applied spec status w =
      elim (Result-cases
        (create_role client spec.role_name spec.assume_role_policy spec.path spec.description
          spec.max_session_duration spec.tags w).0) [
            | inl (e, h) ↦ rw (h, rescue, continue, merge) tt
            | inr (role, h) ↦
                rw (h, rescue, continue, merge)
                  (reconcile_into-Applied spec (with_role status role) _
                    (λ s. created_details s.role_name) _)
          ]

  update_branch-Applied :
      (spec : IamRoleConfig) (status : IamRoleStatus) (role : Role) (w : W)
      → Applied spec.role_name spec.managed_policy_arns
          (body (update_branch json checkers client spec status role) w)
  unfolding update_branch
  update_branch-Applied spec status role w =
      elim (Result-cases
        (update_trust_policy client json spec.role_name (to_string role.assume_role_policy_document)
          spec.assume_role_policy w).0) [
            | inl (e, h) ↦ rw (h, rescue, continue, merge) tt
            | inr (u, h) ↦
                rw (h, rescue, continue, merge)
                  (reconcile_into-Applied spec (with_role status role) _
                    (λ s. updated_details s.role_name) _)
          ]

  apply_branch-Applied :
      (spec : IamRoleConfig) (status : IamRoleStatus) (role : Option Role) (w : W)
      → Applied spec.role_name spec.managed_policy_arns
          (body (apply_branch json checkers client spec status role) w)
  apply_branch-Applied spec status none w = create_branch-Applied spec status w
  apply_branch-Applied spec status (some role) w = update_branch-Applied spec status role w

  apply_resolved-Applied :
      (spec : IamRoleConfig) (status : IamRoleStatus) (w : W)
      → Applied spec.role_name spec.managed_policy_arns
          (body (apply_resolved json checkers client spec status) w)
  unfolding apply_resolved
  apply_resolved-Applied spec status w =
      elim (Result-cases (get_role_by_name client spec.role_name w).0) [
        | inl (e, h) ↦ rw (h, rescue, continue, merge) tt
        | inr (role, h) ↦ rw (h, rescue, continue, merge) (apply_branch-Applied spec status role _)
      ]

  -- If `applyAction` succeeds, whatever it met, then exactly the managed policies of the
  -- configuration are attached to its role, and the status lists them, sorted and each once.
  pub apply_action-Applied :
      (spec : IamRoleConfig) (status : IamRoleStatus) (w : W)
      → Applied spec.role_name spec.managed_policy_arns
          (apply_action json checkers client spec status w)
  unfolding apply_action
  apply_action-Applied spec status w = elim (Result-cases (resolve_spec json spec)) [
    | inl (e, h) ↦ rw (h, apply_validated) tt
    | inr (spec', h) ↦
        let (named, arns) = resolve_spec_keeps json spec spec' h in
        rw (h, apply_validated, ← named, ← arns) (apply_resolved-Applied spec' status w)
  ]
