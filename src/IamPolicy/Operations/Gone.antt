-- ===== src/IamPolicy/Operations/Gone.antt =====
-- iampolicy/operations.go: whether the policy is there after `deleteAction`.
use componator_aws_providers.Prelude.{
  String, ◌≡◌, ◌≢◌, refl, inl, inr, Bool, true, false, Option, none, some, List, ◌==◌, Bool-cases,
  arith, eq_iff,
}
use componator_aws_providers.Go.{GoError}
use componator_aws_providers.Go.Flow.{Result, ok, err, rescue, continue, merge, body, Result-cases}
use componator_aws_providers.Aws.{Checker, is_not_found_error}
use componator_aws_providers.Toolkit.{
  ActionResult, action_success, action_failure, action_result_for_error,
}
use componator_aws_providers.Json.{Json}
use componator_aws_providers.IamPolicy.Config.{IamPolicyStatus}
use componator_aws_providers.IamPolicy.Client.{Policy, IamPolicyClient}
use componator_aws_providers.IamPolicy.Existence.{KnowsPolicies}
use componator_aws_providers.IamPolicy.Calls.{get_policy_by_arn, delete_policy}
use componator_aws_providers.IamPolicy.Versions.{delete_policy_all_versions}
use componator_aws_providers.IamPolicy.Operations.{delete_branch, delete_action}

module _ {W : Type 0} (json : Json) (checkers : List Checker) (client : IamPolicyClient W)
    (exists : W → String → Bool) (knows : KnowsPolicies exists client) where
  -- What the look-up answers tells whether the policy is there.
  abbrev pub Answers : String → Result GoError (Option Policy) × W → Type 0
  Answers arn (err e, w) = Unit
  Answers arn (ok none, w) = exists w arn ≡ false
  Answers arn (ok (some p), w) = exists w arn ≡ true

  pub get_policy_by_arn-Answers :
      (arn : String) (w : W) → Answers arn (get_policy_by_arn client arn w)
  unfolding get_policy_by_arn
  get_policy_by_arn-Answers arn w = elim (Result-cases (client.get_policy arn w).0) [
    | inl (e, h) ↦ elim (Bool-cases (is_not_found_error (some e))) [
      | inl missing ↦ rw (h, rescue, missing) (knows.not_found arn w e h missing)
      | inr other ↦ rw (h, rescue, other) tt
    ]
    | inr (none, h) ↦ rw (h, rescue) (knows.absent arn w h)
    | inr (some p, h) ↦ rw (h, rescue) (knows.found arn w p h)
  ]

  abbrev Removed : String → Result GoError (Unit {0}) × W → Type 0
  Removed arn (err e, w) = Unit
  Removed arn (ok u, w) = exists w arn ≡ false

  delete_policy-Removed : (arn : String) (w : W) → Removed arn (delete_policy client arn w)
  unfolding delete_policy
  delete_policy-Removed arn w = elim (Result-cases (client.delete_policy arn w).0) [
    | inl (e, h) ↦ elim (Bool-cases (is_not_found_error (some e))) [
      | inl missing ↦ rw (h, rescue, missing) (knows.delete_not_found arn w e h missing)
      | inr other ↦ rw (h, rescue, other) tt
    ]
    | inr (u, h) ↦ rw (h, rescue) (knows.deleted arn w h)
  ]

  -- Every result carries the status as it was, and after a success the policy is not there.
  abbrev pub Gone : IamPolicyStatus → ActionResult IamPolicyStatus × W → Type 0
  Gone status (action_success s m, w) = (s ≡ status) × (exists w status.policy_arn ≡ false)
  Gone status (action_failure s m, w) = s ≡ status
  Gone status (action_result_for_error s e c, w) = s ≡ status

  delete_branch-Gone :
      (status : IamPolicyStatus) (p : Option Policy) (w : W)
      → Answers status.policy_arn (ok p, w)
      → Gone status (body (delete_branch json checkers client status p) w)
  unfolding delete_branch
  delete_branch-Gone status none w gone = (refl, gone)
  delete_branch-Gone status (some p) w there =
      let arn = status.policy_arn in
      elim (Result-cases (delete_policy_all_versions client arn w).0) [
        | inl (e, h) ↦ rw (h, rescue, continue, merge) refl
        | inr (n, h) ↦
            let w₁ = (delete_policy_all_versions client arn w).1 in
            elim (Result-cases (delete_policy client arn w₁).0) [
              | inl (e, g) ↦ rw (h, rescue, continue) (rw (g, rescue, continue, merge) refl)
              | inr (u, g) ↦
                  rw (h, rescue, continue)
                    (rw (g, rescue, continue, merge) (refl, rw g at (delete_policy-Removed arn w₁)))
            ]
      ]

  pub delete_action-Gone :
      (status : IamPolicyStatus) (w : W)
      → status.policy_arn ≢ ""
      → Gone status (delete_action json checkers client status w)
  unfolding delete_action
  delete_action-Gone status w named =
      let given : (status.policy_arn == "") ≡ false =
        ground (arith, named, eq_iff status.policy_arn "") in
      let answer = get_policy_by_arn-Answers status.policy_arn w in
      elim (Result-cases (get_policy_by_arn client status.policy_arn w).0) [
        | inl (e, h) ↦ rw given (rw (h, rescue, continue, merge) refl)
        | inr (p, h) ↦
            rw given (rw (h, rescue, continue) (delete_branch-Gone status p _ (rw h at answer)))
      ]
