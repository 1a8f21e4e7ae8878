-- ===== src/IamPolicy/Operations/Absent.antt =====
-- iampolicy/operations.go: the handlers at a policy that is not there.
use componator_aws_providers.Prelude.{
  String, ◌≡◌, ◌≢◌, refl, inl, inr, Bool, false, none, some, List, ◌==◌, Bool-cases, arith, eq_iff,
}
use componator_aws_providers.Go.Flow.{rescue, continue, merge, Result-cases}
use componator_aws_providers.Go.Along.{Preorder, Along}
use componator_aws_providers.Aws.{Checker}
use componator_aws_providers.Toolkit.{
  ActionResult, action_success, action_failure, action_result_for_error, action_status,
  check_status, is_in_progress,
}
use componator_aws_providers.Json.{Json}
use componator_aws_providers.IamPolicy.Config.{IamPolicyStatus}
use componator_aws_providers.IamPolicy.Client.{IamPolicyClient}
use componator_aws_providers.IamPolicy.Existence.{KnowsPolicies, StaysAbsent}
use componator_aws_providers.IamPolicy.Calls.{get_policy_by_arn}
use componator_aws_providers.IamPolicy.Operations.{check_applied, delete_action, check_deleted}
use componator_aws_providers.IamPolicy.Operations.Runs.{
  Deletes, get_policy_by_arn-Along, delete_action-Along,
}
use componator_aws_providers.IamPolicy.Operations.Gone.{
  get_policy_by_arn-Answers, Gone, delete_action-Gone,
}

module _ {W : Type 0} (json : Json) (checkers : List Checker) (client : IamPolicyClient W)
    (exists : W → String → Bool) (knows : KnowsPolicies exists client) where
  abbrev staying : (arn : String) → Preorder (StaysAbsent exists arn)
  staying arn = record { same = λ w h. h; trans = λ u v w first second h. second (first h) }

  calls-Deletes : (arn : String) → Deletes (StaysAbsent exists arn) client arn
  calls-Deletes arn = record {
    get = record { run = knows.get_stays arn };
    list = record { run = knows.list_stays arn };
    delete_version = λ id. record { run = knows.delete_version_stays arn id };
    delete = record { run = knows.delete_stays arn };
  }

  get_policy_by_arn-Staying :
      (arn : String) → Along (StaysAbsent exists arn) (get_policy_by_arn client arn)
  get_policy_by_arn-Staying arn =
      get_policy_by_arn-Along (staying arn) client arn (calls-Deletes arn).get

  -- The status is as it was, and its policy is not there.
  abbrev pub Absent : IamPolicyStatus → IamPolicyStatus × W → Type 0
  Absent status (s, w) = (s ≡ status) × (exists w status.policy_arn ≡ false)

  carried :
      (status : IamPolicyStatus) (r : ActionResult IamPolicyStatus) (w : W)
      → Gone json checkers client exists knows status (r, w)
      → action_status r ≡ status
  carried status (action_success s m) w (same, gone) = same
  carried status (action_failure s m) w same = same
  carried status (action_result_for_error s e c) w same = same

  pub delete_action-Absent :
      (status : IamPolicyStatus) (w : W)
      → status.policy_arn ≢ ""
      → exists w status.policy_arn ≡ false
      → let result = delete_action json checkers client status w in
        Absent status (action_status result.0, result.1)
  delete_action-Absent status w named gone =
      let result = delete_action json checkers client status w in
      (
        carried status result.0 result.1
            (delete_action-Gone json checkers client exists knows status w named),
        delete_action-Along json checkers client (staying status.policy_arn) status w
            (calls-Deletes status.policy_arn) gone,
      )

  pub check_applied-Absent :
      (status : IamPolicyStatus) (w : W)
      → exists w status.policy_arn ≡ false
      → let result = check_applied json checkers client status w in
        Absent status (check_status result.0, result.1)
  unfolding check_applied
  check_applied-Absent status w gone =
      let answer =
        get_policy_by_arn-Answers json checkers client exists knows status.policy_arn w in
      let after = (get_policy_by_arn-Staying status.policy_arn).run w gone in
      elim (Bool-cases (status.policy_arn == "")) [
        | inl e ↦ rw e (refl, gone)
        | inr e ↦ elim (Result-cases (get_policy_by_arn client status.policy_arn w).0) [
          | inl (x, h) ↦ rw e (rw (h, rescue, continue, merge) (refl, after))
          | inr (none, h) ↦ rw e (rw (h, rescue, continue, merge) (refl, after))
          | inr (some p, h) ↦ let there = rw h at answer in cc
        ]
      ]

  -- `checkDeleted` of a policy that is not there is not in progress either.
  pub check_deleted-Absent :
      (status : IamPolicyStatus) (w : W)
      → status.policy_arn ≢ ""
      → exists w status.policy_arn ≡ false
      → let result = check_deleted json checkers client status w in
        Absent status (check_status result.0, result.1) × (is_in_progress result.0 ≡ false)
  unfolding check_deleted
  check_deleted-Absent status w named gone =
      let given : (status.policy_arn == "") ≡ false =
        ground (arith, named, eq_iff status.policy_arn "") in
      let answer =
        get_policy_by_arn-Answers json checkers client exists knows status.policy_arn w in
      let after = (get_policy_by_arn-Staying status.policy_arn).run w gone in
      elim (Result-cases (get_policy_by_arn client status.policy_arn w).0) [
        | inl (x, h) ↦ rw given (rw (h, rescue, continue, merge) ((refl, after), refl))
        | inr (none, h) ↦ rw given (rw (h, rescue, continue, merge) ((refl, after), refl))
        | inr (some p, h) ↦ let there = rw h at answer in cc
      ]
