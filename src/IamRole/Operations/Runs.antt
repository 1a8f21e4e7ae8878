-- ===== src/IamRole/Operations/Runs.antt =====
-- iamrole/operations.go: which calls of the IAM client the four handlers make.
use componator_aws_providers.Prelude.{
  ℕ, suc, String, inl, inr, Option, none, some, List, [], ◌∷◌, ◌==◌, Bool-cases,
}
use componator_aws_providers.Prelude.Texts.{mem}
use componator_aws_providers.Go.{Message}
use componator_aws_providers.Go.Flow.{Result-cases, body}
use componator_aws_providers.Go.Along.{Preorder, Along, pure-Along, >>=-Along, or_return-Along}
use componator_aws_providers.Aws.{Checker}
use componator_aws_providers.Json.{Json}
use componator_aws_providers.IamRole.Config.{IamRoleConfig, IamRoleStatus, resolve_spec}
use componator_aws_providers.IamRole.Config.Resolution.{resolve_spec_keeps}
use componator_aws_providers.IamRole.Client.{Role, IamRoleClient}
use componator_aws_providers.IamRole.Reconcile.{PolicyReconciliationResult}
use componator_aws_providers.IamRole.Runs.{
  Applies, Deletes, get_role_by_name-Along, list_attached_policies-Along, detach_policy-Along,
  delete_role-Along, update_trust_policy-Along, create_role-Along, reconcile-Along,
}
use componator_aws_providers.IamRole.Operations.{
  with_role, created_details, updated_details, reconcile_into, create_branch, update_branch,
  apply_branch, apply_resolved, apply_validated, apply_action, check_applied, detach_all,
  delete_branch, delete_action, check_deleted,
}

module _ {W : Type 0} (json : Json) (checkers : List Checker) (client : IamRoleClient W)
    {R : W → W → Type 0} (order : Preorder R) where
  module _ (spec : IamRoleConfig)
      (calls : Applies R client spec.role_name λ a. mem a spec.managed_policy_arns) where
    reconcile_into-Along :
        (status : IamRoleStatus) (f : String)
        (details : IamRoleStatus → PolicyReconciliationResult → Message)
        → Along R (reconcile_into json checkers client spec status f details)
    unfolding reconcile_into
    reconcile_into-Along status f details =
        >>=-Along order _ _
          (or_return-Along order _ _
            (reconcile-Along order client spec.role_name spec.managed_policy_arns calls))
          (λ r. pure-Along order _)

    apply_branch-Along :
        (status : IamRoleStatus) (role : Option Role)
        → Along R (apply_branch json checkers client spec status role)
    unfolding create_branch update_branch
    apply_branch-Along status none =
        >>=-Along order _ _
          (or_return-Along order _ _
            (create_role-Along order client spec.role_name _ calls _ _ _ _ _))
          (λ role.
            reconcile_into-Along (with_role status role) _ (λ s. created_details s.role_name))
    apply_branch-Along status (some role) =
        >>=-Along order _ _
          (or_return-Along order _ _
            (update_trust_policy-Along order client spec.role_name _ calls json _ _))
          (λ u. reconcile_into-Along (with_role status role) _ (λ s. updated_details s.role_name))

    apply_resolved-Along :
        (status : IamRoleStatus) (w : W)
        → R w (body (apply_resolved json checkers client spec status) w).1
    unfolding apply_resolved
    apply_resolved-Along status w =
        (>>=-Along order _ _
            (or_return-Along order _ _
              (get_role_by_name-Along order client spec.role_name calls.get))
            (λ role. apply_branch-Along status role)).run
          w

  module _ (spec : IamRoleConfig) (status : IamRoleStatus) (w : W) where
    pub apply_action-Along :
        Applies R client spec.role_name (λ a. mem a spec.managed_policy_arns)
        → R w (apply_action json checkers client spec status w).1
    unfolding apply_action
    apply_action-Along calls = elim (Result-cases (resolve_spec json spec)) [
      | inl (e, h) ↦ rw (h, apply_validated) (order.same w)
      | inr (spec', h) ↦
          let (named, arns) = resolve_spec_keeps json spec spec' h in
          rw (h, apply_validated) (apply_resolved-Along spec' (rw (named, arns) calls) status w)
    ]

    pub check_applied-Along :
        Along R (client.get_role spec.role_name)
        → R w (check_applied json checkers client spec status w).1
    unfolding check_applied
    check_applied-Along get = elim (Bool-cases (status.role_arn == "")) [
      | inl e ↦ rw e (order.same w)
      | inr e ↦ rw e (
          (>>=-Along order _ _
              (or_return-Along order _ _ (get_role_by_name-Along order client spec.role_name get))
              (λ role. pure-Along order _)).run
            w)
    ]

    pub check_deleted-Along :
        Along R (client.get_role spec.role_name)
        → R w (check_deleted json checkers client spec status w).1
    unfolding check_deleted
    check_deleted-Along get =
        (>>=-Along order _ _
            (or_return-Along order _ _ (get_role_by_name-Along order client spec.role_name get))
            (λ role. pure-Along order _)).run
          w

  module _ (spec : IamRoleConfig) (calls : Deletes R client spec.role_name) where
    detach_all-Along :
        (status : IamRoleStatus) (arns : List String) (n : ℕ)
        → Along R (detach_all json checkers client spec status arns n)
    unfolding detach_all
    detach_all-Along status [] n = pure-Along order n
    detach_all-Along status (p ∷ rest) n =
        >>=-Along order _ _
          (or_return-Along order _ _
            (detach_policy-Along order client spec.role_name p (calls.detach p)))
          (λ u. detach_all-Along status rest (suc n))

    delete_branch-Along :
        (status : IamRoleStatus) (role : Option Role)
        → Along R (delete_branch json checkers client spec status role)
    unfolding delete_branch
    delete_branch-Along status none = pure-Along order _
    delete_branch-Along status (some role) =
        >>=-Along order _ _
          (or_return-Along order _ _
            (list_attached_policies-Along order client spec.role_name calls.list))
          (λ arns. >>=-Along order _ _ (detach_all-Along status arns 0) (λ n.
            >>=-Along order _ _
              (or_return-Along order _ _
                (delete_role-Along order client spec.role_name calls.delete))
              (λ u. pure-Along order _)))

    pub delete_action-Along :
        (status : IamRoleStatus) (w : W) → R w (delete_action json checkers client spec status w).1
    unfolding delete_action
    delete_action-Along status w =
        (>>=-Along order _ _
            (or_return-Along order _ _
              (get_role_by_name-Along order client spec.role_name calls.get))
            (λ role. delete_branch-Along status role)).run
          w

  -- Whatever calls fail, the four handlers do nothing to the service but what the calls of `Applies`,
  -- of `Deletes` and of the look-up do for the role of the configuration: a reflexive and transitive
  -- relation that these calls follow is followed by the handlers. `applyAction` attaches only
  -- managed policies, and detaches only others.
  pub handlers-Along :
      (spec : IamRoleConfig) (status : IamRoleStatus) (w : W)
      → Applies R client spec.role_name (λ a. mem a spec.managed_policy_arns)
      → Deletes R client spec.role_name
      → R w (apply_action json checkers client spec status w).1
        × R w (delete_action json checkers client spec status w).1
        × R w (check_applied json checkers client spec status w).1
        × R w (check_deleted json checkers client spec status w).1
  handlers-Along spec status w applies deletes = (
    apply_action-Along spec status w applies,
    delete_action-Along spec deletes status w,
    check_applied-Along spec status w deletes.get,
    check_deleted-Along spec status w deletes.get,
  )
