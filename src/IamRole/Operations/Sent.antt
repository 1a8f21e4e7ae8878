-- ===== src/IamRole/Operations/Sent.antt =====
-- iamrole/operations.go: the trust policies that `applyAction` sends where the service gives them in
-- the URL encoding.
use componator_aws_providers.Prelude.{
  ℕ, suc, ◌≤◌, String, ◌≡◌, Bool, true, inl, inr, none, some, List, arith, Bool-cases,
}
use componator_aws_providers.Prelude.Texts.{mem}
use componator_aws_providers.Go.{Message}
use componator_aws_providers.Go.Flow.{ok, rescue, continue, merge, body, Result-cases}
use componator_aws_providers.Go.Along.{Preorder}
use componator_aws_providers.Aws.{to_string, to_iam_tags, Checker, is_not_found_error}
use componator_aws_providers.Toolkit.{
  ActionResult, action_success, action_failure, action_result_for_error,
}
use componator_aws_providers.Json.{Json, json_equals}
use componator_aws_providers.IamRole.Config.{IamRoleConfig, IamRoleStatus, resolve_spec}
use componator_aws_providers.IamRole.Client.{Role, CreateRoleInput, IamRoleClient}
use componator_aws_providers.IamRole.Calls.{get_role_by_name, create_role, update_trust_policy}
use componator_aws_providers.IamRole.Reconcile.{
  PolicyReconciliationResult, reconcile_policy_attachments,
}
use componator_aws_providers.IamRole.Runs.{Applies, reconcile-Along}
use componator_aws_providers.IamRole.Operations.{
  with_role, created_details, updated_details, reconcile_into, create_branch, update_branch,
  apply_resolved, apply_validated, apply_action,
}

-- A service that counts the trust policies that it accepted, with a new role or for one that is
-- there. It gives the trust policy of a role in the URL encoding, which for a JSON object is no JSON.
pub record EncodesTrustPolicies (json : Json) {W : Type 0} (client : IamRoleClient W) (sent : W → ℕ)
    : Type 0 where
  pub created :
      (c : CreateRoleInput) (w : W) (role : Role)
      → (client.create_role c w).0 ≡ ok role
      → sent (client.create_role c w).1 ≡ suc (sent w)
  pub updated :
      (r d : String) (w : W)
      → (client.update_assume_role_policy r d w).0 ≡ ok tt
      → sent (client.update_assume_role_policy r d w).1 ≡ suc (sent w)
  pub encoded :
      (r : String) (w : W) (role : Role)
      → (client.get_role r w).0 ≡ ok (some role)
      → json.unmarshal (to_string role.assume_role_policy_document) ≡ none
  pub grows :
      (r : String) (wanted : String → Bool) → Applies (λ w w'. sent w ≤ sent w') client r wanted

module _ {W : Type 0} (json : Json) (client : IamRoleClient W) (sent : W → ℕ)
    (encodes : EncodesTrustPolicies json client sent) (checkers : List Checker) where
  abbrev growing : Preorder (λ (w w' : W). sent w ≤ sent w')
  growing = record { same = λ w. omega arith; trans = λ u v w first second. omega arith }

  -- A success sent a trust policy.
  abbrev Sends : W → ActionResult IamRoleStatus × W → Type 0
  Sends w₀ (action_success s m, w) = suc (sent w₀) ≤ sent w
  Sends w₀ (action_failure s m, w) = Unit
  Sends w₀ (action_result_for_error s e c, w) = Unit

  reconcile_into-Sends :
      (spec : IamRoleConfig) (status : IamRoleStatus) (f : String)
      (details : IamRoleStatus → PolicyReconciliationResult → Message) (w₀ w : W)
      → suc (sent w₀) ≤ sent w
      → Sends w₀ (body (reconcile_into json checkers client spec status f details) w)
  unfolding reconcile_into
  reconcile_into-Sends spec status f details w₀ w before =
      let ds = spec.managed_policy_arns in
      let name = spec.role_name in
      let kept : sent w ≤ sent (reconcile_policy_attachments client name ds w).1 =
        (reconcile-Along growing client name ds (encodes.grows name (λ a. mem a ds))).run w in
      elim (Result-cases (reconcile_policy_attachments client name ds w).0) [
        | inl (e, h) ↦ rw (h, rescue, continue, merge) tt
        | inr (r, h) ↦ rw (h, rescue, continue, merge) (omega arith)
      ]

  create_branch-Sends :
      (spec : IamRoleConfig) (status : IamRoleStatus) (w₀ w : W)
      → sent w₀ ≤ sent w
      → Sends w₀ (body (create_branch json checkers client spec status) w)
  unfolding create_branch create_role
  create_branch-Sends spec status w₀ w before =
      let input : CreateRoleInput = record {
        role_name = spec.role_name;
        assume_role_policy_document = spec.assume_role_policy;
        path = spec.path;
        max_session_duration = spec.max_session_duration;
        description = spec.description;
        tags = to_iam_tags spec.tags;
      } in
      elim (Result-cases (client.create_role input w).0) [
        | inl (e, h) ↦ rw (h, rescue, continue, merge) tt
        | inr (role, h) ↦
            let one = encodes.created input w role h in
            rw (h, rescue, continue)
              (reconcile_into-Sends spec (with_role status role) _
                (λ s. created_details s.role_name) w₀ _ (omega arith))
      ]

  update_branch-Sends :
      (spec : IamRoleConfig) (status : IamRoleStatus) (role : Role) (w₀ w : W)
      → json.unmarshal (to_string role.assume_role_policy_document) ≡ none
      → sent w₀ ≤ sent w
      → Sends w₀ (body (update_branch json checkers client spec status role) w)
  unfolding update_branch update_trust_policy json_equals
  update_branch-Sends spec status role w₀ w encoded before =
      let name = spec.role_name in
      let trust = spec.assume_role_policy in
      elim (Result-cases (client.update_assume_role_policy name trust w).0) [
        | inl (e, h) ↦ rw encoded (rw (h, rescue, continue, merge) tt)
        | inr (u, h) ↦
            let one = encodes.updated name trust w h in
            rw encoded (
              rw (h, rescue, continue)
                (reconcile_into-Sends spec (with_role status role) _
                  (λ s. updated_details s.role_name) w₀ _ (omega arith)))
      ]

  apply_resolved-Sends :
      (spec : IamRoleConfig) (status : IamRoleStatus) (w : W)
      → Sends w (body (apply_resolved json checkers client spec status) w)
  unfolding apply_resolved get_role_by_name
  apply_resolved-Sends spec status w =
      let name = spec.role_name in
      let kept : sent w ≤ sent (client.get_role name w).1 =
        (encodes.grows name (λ a. true)).get.run w in
      elim (Result-cases (client.get_role name w).0) [
        | inl (e, h) ↦ elim (Bool-cases (is_not_found_error (some e))) [
          | inl missing ↦
              rw (h, rescue)
                (rw (missing, rescue, continue) (create_branch-Sends spec status w _ kept))
          | inr other ↦ rw (h, rescue) (rw (other, rescue, continue, merge) tt)
        ]
        | inr (none, h) ↦ rw (h, rescue, continue) (create_branch-Sends spec status w _ kept)
        | inr (some role, h) ↦
            rw (h, rescue, continue)
              (update_branch-Sends spec status role w _ (encodes.encoded name w role h) kept)
      ]

  apply_action-Sends :
      (spec : IamRoleConfig) (status : IamRoleStatus) (w : W)
      → Sends w (apply_action json checkers client spec status w)
  unfolding apply_action
  apply_action-Sends spec status w = elim (Result-cases (resolve_spec json spec)) [
    | inl (e, h) ↦ rw (h, apply_validated) tt
    | inr (spec', h) ↦ rw (h, apply_validated) (apply_resolved-Sends spec' status w)
  ]

  -- Where the service gives the trust policies in the URL encoding, two successful applications of
  -- the same configuration, one after the other, send at least two trust policies: the second does
  -- not find that the trust policy is the one that the first sent.
  pub apply_action_sends_policies :
      (spec : IamRoleConfig) (status s s' : IamRoleStatus) (m m' : Message) (w : W)
      → (apply_action json checkers client spec status w).0 ≡ action_success s m
      → (apply_action json checkers client spec s
          (apply_action json checkers client spec status w).1).0
        ≡ action_success s' m'
      → let w₁ = (apply_action json checkers client spec status w).1 in
        let w₂ = (apply_action json checkers client spec s w₁).1 in
        (suc (sent w) ≤ sent w₁) × (suc (sent w₁) ≤ sent w₂)
  apply_action_sends_policies spec status s s' m m' w first second =
      let w₁ = (apply_action json checkers client spec status w).1 in
      (rw first at (apply_action-Sends spec status w), rw second at (apply_action-Sends spec s w₁))
