-- ===== src/IamRole/Operations/Gone.antt =====
-- iamrole/operations.go: `deleteAction` and `checkDeleted`, and whether the role is there.
use componator_aws_providers.Prelude.{
  ℕ, suc, String, ◌≡◌, inl, inr, Bool, true, false, Option, none, some, List, [], ◌∷◌, Bool-cases,
}
use componator_aws_providers.Go.{GoError}
use componator_aws_providers.Go.Flow.{
  Proc, Result, ok, err, rescue, continue, merge, ◌>>=◌, body, Result-cases,
}
use componator_aws_providers.Aws.{Checker, is_not_found_error}
use componator_aws_providers.Toolkit.{
  ActionResult, action_success, action_failure, action_result_for_error, CheckResult,
  check_complete, check_in_progress, check_result_for_error,
}
use componator_aws_providers.Json.{Json}
use componator_aws_providers.IamRole.Config.{IamRoleConfig, IamRoleStatus}
use componator_aws_providers.IamRole.Client.{Role, IamRoleClient}
use componator_aws_providers.IamRole.Existence.{KnowsRoles}
use componator_aws_providers.IamRole.Calls.{
  get_role_by_name, list_attached_policies, detach_policy, delete_role,
}
use componator_aws_providers.IamRole.Operations.{
  detach_all, delete_branch, delete_action, check_deleted,
}

module _ {W : Type 0} (json : Json) (checkers : List Checker) (client : IamRoleClient W)
    (exists : W → String → Bool) (knows : KnowsRoles exists client) where
  -- What the look-up answers tells whether the role is there.
  abbrev Answers : String → Result GoError (Option Role) × W → Type 0
  Answers r (err e, w) = Unit
  Answers r (ok none, w) = exists w r ≡ false
  Answers r (ok (some role), w) = exists w r ≡ true

  get_role_by_name-Answers : (r : String) (w : W) → Answers r (get_role_by_name client r w)
  unfolding get_role_by_name
  get_role_by_name-Answers r w = elim (Result-cases (client.get_role r w).0) [
    | inl (e, h) ↦ elim (Bool-cases (is_not_found_error (some e))) [
      | inl missing ↦ rw (h, rescue, missing) (knows.not_found r w e h missing)
      | inr other ↦ rw (h, rescue, other) tt
    ]
    | inr (none, h) ↦ rw (h, rescue) (knows.absent r w h)
    | inr (some role, h) ↦ rw (h, rescue) (knows.found r w role h)
  ]

  abbrev Removed : String → Result GoError (Unit {0}) × W → Type 0
  Removed r (err e, w) = Unit
  Removed r (ok u, w) = exists w r ≡ false

  delete_role-Removed : (r : String) (w : W) → Removed r (delete_role client r w)
  unfolding delete_role
  delete_role-Removed r w = elim (Result-cases (client.delete_role r w).0) [
    | inl (e, h) ↦ elim (Bool-cases (is_not_found_error (some e))) [
      | inl missing ↦ rw (h, rescue, missing) (knows.delete_not_found r w e h missing)
      | inr other ↦ rw (h, rescue, other) tt
    ]
    | inr (u, h) ↦ rw (h, rescue) (knows.deleted r w h)
  ]

  -- After a success the role is not there. Nothing is said of other results.
  abbrev pub Gone : String → ActionResult IamRoleStatus × W → Type 0
  Gone r (action_success s m, w) = exists w r ≡ false
  Gone r (action_failure s m, w) = Unit
  Gone r (action_result_for_error s e c, w) = Unit

  detach_all-Gone :
      (spec : IamRoleConfig) (status : IamRoleStatus) (arns : List String) (n : ℕ) (w : W)
      (k : ℕ → Proc W (ActionResult IamRoleStatus) (ActionResult IamRoleStatus))
      → ((n : ℕ) (w : W) → Gone spec.role_name (body (k n) w))
      → Gone spec.role_name (body (detach_all json checkers client spec status arns n >>= k) w)
  unfolding detach_all
  detach_all-Gone spec status [] n w k rest = rest n w
  detach_all-Gone spec status (p ∷ arns) n w k rest =
      elim (Result-cases (detach_policy client spec.role_name p w).0) [
        | inl (e, h) ↦ rw (h, rescue, continue, merge) tt
        | inr (u, h) ↦ rw (h, rescue, continue) (detach_all-Gone spec status arns (suc n) _ k rest)
      ]

  delete_branch-Gone :
      (spec : IamRoleConfig) (status : IamRoleStatus) (role : Option Role) (w : W)
      → Answers spec.role_name (ok role, w)
      → Gone spec.role_name (body (delete_branch json checkers client spec status role) w)
  unfolding delete_branch
  delete_branch-Gone spec status none w gone = gone
  delete_branch-Gone spec status (some role) w here =
      elim (Result-cases (list_attached_policies client spec.role_name w).0) [
        | inl (e, h) ↦ rw (h, rescue, continue, merge) tt
        | inr (arns, h) ↦
            rw (h, rescue, continue)
              (detach_all-Gone spec status arns 0 _ _ (λ n w'.
                elim (Result-cases (delete_role client spec.role_name w').0) [
                  | inl (e, g) ↦ rw (g, rescue, continue, merge) tt
                  | inr (u, g) ↦
                      rw (g, rescue, continue, merge)
                        (rw g at (delete_role-Removed spec.role_name w'))
                ]))
      ]

  pub delete_action-Gone :
      (spec : IamRoleConfig) (status : IamRoleStatus) (w : W)
      → Gone spec.role_name (delete_action json checkers client spec status w)
  unfolding delete_action
  delete_action-Gone spec status w =
      elim (Result-cases (get_role_by_name client spec.role_name w).0) [
        | inl (e, h) ↦ rw (h, rescue, continue, merge) tt
        | inr (role, h) ↦
            rw (h, rescue, continue, merge)
              (delete_branch-Gone spec status role _
                (rw h at (get_role_by_name-Answers spec.role_name w)))
      ]

  -- What a result of `checkDeleted` tells of the role: completion that it is not there, and progress
  -- that it is.
  abbrev pub Tells : String → CheckResult IamRoleStatus × W → Type 0
  Tells r (check_complete s m, w) = exists w r ≡ false
  Tells r (check_in_progress s m, w) = exists w r ≡ true
  Tells r (check_result_for_error s e c, w) = Unit

  pub check_deleted-Tells :
      (spec : IamRoleConfig) (status : IamRoleStatus) (w : W)
      → Tells spec.role_name (check_deleted json checkers client spec status w)
  unfolding check_deleted
  check_deleted-Tells spec status w =
      let answer = get_role_by_name-Answers spec.role_name w in
      elim (Result-cases (get_role_by_name client spec.role_name w).0) [
        | inl (e, h) ↦ rw (h, rescue, continue, merge) tt
        | inr (none, h) ↦ rw (h, rescue, continue, merge) (rw h at answer)
        | inr (some role, h) ↦ rw (h, rescue, continue, merge) (rw h at answer)
      ]
