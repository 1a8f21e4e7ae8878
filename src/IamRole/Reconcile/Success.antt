-- ===== src/IamRole/Reconcile/Success.antt =====
-- When the reconciliation succeeds.
use componator_aws_providers.Prelude.{
  ℕ, suc, String, ◌≡◌, refl, Bool, List, [], ◌∷◌, ◌&&◌, is_empty, length, inl, inr, Bool-cases, map,
}
use componator_aws_providers.Prelude.Int.{pos}
use componator_aws_providers.Prelude.Texts.{mem, set_of, insert, erase}
use componator_aws_providers.Prelude.Order.{sorted}
use componator_aws_providers.Go.{GoError}
use componator_aws_providers.Go.Flow.{ok, rescue, continue}
use componator_aws_providers.Aws.{to_string}
use componator_aws_providers.IamRole.Client.{IamRoleClient}
use componator_aws_providers.IamRole.Attachments.{IsLawful, Answers}
use componator_aws_providers.IamRole.Calls.{list_attached_policies, attach_policy, detach_policy}
use componator_aws_providers.IamRole.Reconcile.{
  PolicyReconciliationResult, Failure, result_of, missing, detach_loop, attach_loop, apply_changes,
  detach_failure, attach_failure, reconcile_policy_attachments,
}
use componator_aws_providers.IamRole.Reconcile.Exact.{reconcile-Reconciled}

module _ {W : Type 0} (client : IamRoleClient W) (answers : Answers client) (role : String) where
  detach_loop_ok :
      (failed : List String → String → GoError → Failure) (ps xs : List String) (w : W)
      → (ys : List String) × ((detach_loop client role failed ps xs w).0 ≡ ok ys)
  unfolding detach_loop detach_policy
  detach_loop_ok failed [] xs w = (xs, refl)
  detach_loop_ok failed (p ∷ ps) xs w =
      rw (answers.detaches role p w, rescue, continue) (detach_loop_ok failed ps (erase p xs) _)

  attach_loop_ok :
      (failed : List String → ℕ → String → GoError → Failure) (ps xs : List String) (n : ℕ) (w : W)
      → (ys : List String) × ((attach_loop client role failed ps xs n w).0 ≡ ok ys)
  unfolding attach_loop attach_policy
  attach_loop_ok failed [] xs n w = (xs, refl)
  attach_loop_ok failed (p ∷ ps) xs n w =
      rw (answers.attaches role p w, rescue, continue)
        (attach_loop_ok failed ps (insert p xs) (suc n) _)

  apply_changes_ok :
      (to_attach to_detach current : List String) (w : W)
      → (r : PolicyReconciliationResult) × ((apply_changes client role to_attach to_detach current
            w).0
          ≡ ok r)
  unfolding apply_changes
  apply_changes_ok to_attach to_detach current w =
      let (xs, h) =
        detach_loop_ok (detach_failure to_detach current) to_detach (set_of [] current) w in
      let (ys, g) =
        attach_loop_ok (attach_failure to_detach) to_attach xs 0
          (detach_loop client role (detach_failure to_detach current) to_detach (set_of [] current)
            w).1 in
      (
        result_of ys (pos (length to_attach)) (pos (length to_detach)),
        rw (h, continue) (rw (g, continue)),
      )

  pub reconcile_ok :
      (desired : List String) (w : W)
      → (r : PolicyReconciliationResult) × ((reconcile_policy_attachments client role desired w).0
          ≡ ok r)
  unfolding reconcile_policy_attachments list_attached_policies
  reconcile_ok desired w =
      let (out, h) = answers.lists role w in
      elim (Bool-cases (
        is_empty (missing desired (map to_string out))
        && is_empty (missing (map to_string out) desired))) [
          | inl same ↦ (
            result_of (set_of [] (map to_string out)) (pos 0) (pos 0),
            rw (h, rescue, continue) (rw same),
          )
          | inr differ ↦
              let (r, g) =
                apply_changes_ok (missing desired (map to_string out))
                  (missing (map to_string out) desired) (map to_string out)
                  (client.list_attached_role_policies role w).1 in
              (r, rw (h, rescue, continue) (rw differ g))
        ]

  -- Where the service refuses none of the calls, the reconciliation succeeds: afterwards exactly the
  -- desired policies are attached, and they are what it reports, sorted and each once.
  pub reconcile_succeeds :
      (attached : W → String → String → Bool)
      → IsLawful client attached
      → (desired : List String) (w : W)
      → (r : PolicyReconciliationResult) × ((reconcile_policy_attachments client role desired w).0
          ≡ ok r)
        × ((a : String)
            → attached (reconcile_policy_attachments client role desired w).1 role a
              ≡ mem a desired)
        × (r.attached_policies ≡ sorted (set_of [] desired))
  reconcile_succeeds attached lawful desired w =
      let (r, h) = reconcile_ok desired w in
      let (exact, listed) = rw h at (reconcile-Reconciled client attached lawful role desired w) in
      (r, h, exact, listed)
