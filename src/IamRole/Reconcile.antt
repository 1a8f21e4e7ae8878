-- ===== src/IamRole/Reconcile.antt =====
-- iamrole/aws_iamrole_reconcile.go: the policies attached to a role are brought to the desired
-- ones. The maps of the source hold only `true`, and are the lists of their keys.
pub mod Loops
pub mod Changes
pub mod Exact
pub mod Counts
pub mod Success
use componator_aws_providers.Prelude.{
  ℕ, suc, String, Option, none, some, List, [], ◌∷◌, length, is_empty, ◌&&◌, if◌then◌else◌,
}
use componator_aws_providers.Prelude.Int.{ℤ, pos, ◌+ℤ◌, ◌-ℤ◌}
use componator_aws_providers.Prelude.Texts.{mem, insert, erase, delete_func, set_of}
use componator_aws_providers.Prelude.Order.{sorted}
use componator_aws_providers.Go.{GoError, str, wrapf}
use componator_aws_providers.Go.Flow.{Proc, pure, ◌>>=◌, ◌>>◌, ◌or_return◌}
use componator_aws_providers.IamRole.Client.{IamRoleClient}
use componator_aws_providers.IamRole.Calls.{list_attached_policies, attach_policy, detach_policy}

-- `PolicyReconciliationResult`
pub record PolicyReconciliationResult : Type 0 where
  pub attached_policies : List String
  pub attached_count : ℤ
  pub detached_count : ℤ

-- What `reconcilePolicyAttachments` returns with an error: a result that may be nil, and the error.
pub record Failure : Type 0 where
  pub result : Option PolicyReconciliationResult
  pub error : GoError

abbrev pub result_of : List String → ℤ → ℤ → PolicyReconciliationResult
result_of actually attached detached = record {
  attached_policies = sorted actually;
  attached_count = attached;
  detached_count = detached;
}

-- The keys of `wanted` that `present` lacks, ascending: `toAttach` and `toDetach`.
unfoldable pub missing : List String → List String → List String
missing wanted present = sorted (delete_func (λ k. mem k present) (set_of [] wanted))

module _ {W : Type 0} (client : IamRoleClient W) (role_name : String) where
  -- The loop that detaches. `failed` gives what is returned where a call fails, from the policies
  -- still attached.
  unfoldable pub detach_loop :
      (List String → String → GoError → Failure)
      → List String
      → List String
      → Proc W Failure (List String)
  detach_loop failed [] actually = pure actually
  detach_loop failed (arn ∷ rest) actually = do
    detach_policy client role_name arn or_return failed actually arn
    detach_loop failed rest (erase arn actually)

  -- The loop that attaches, with the number of policies attached so far.
  unfoldable pub attach_loop :
      (List String → ℕ → String → GoError → Failure)
      → List String
      → List String
      → ℕ
      → Proc W Failure (List String)
  attach_loop failed [] actually done = pure actually
  attach_loop failed (arn ∷ rest) actually done = do
    attach_policy client role_name arn or_return failed actually done arn
    attach_loop failed rest (insert arn actually) (suc done)

-- The number of detached policies that is reported when a detachment fails.
unfoldable pub detached_on_failure : List String → List String → List String → ℤ
detached_on_failure to_detach actually current_policies =
    pos (length to_detach) -ℤ pos (length actually) +ℤ pos (length current_policies)

abbrev pub detach_failure : List String → List String → List String → String → GoError → Failure
detach_failure to_detach current_policies actually arn e = record {
  result =
      some (result_of actually (pos 0) (detached_on_failure to_detach actually current_policies));
  error = wrapf "failed to detach policy %s: %w" (str arn ∷ []) e;
}

abbrev pub attach_failure : List String → List String → ℕ → String → GoError → Failure
attach_failure to_detach actually done arn e = record {
  result = some (result_of actually (pos done) (pos (length to_detach)));
  error = wrapf "failed to attach policy %s: %w" (str arn ∷ []) e;
}

module _ {W : Type 0} (client : IamRoleClient W) (role_name : String) where
  -- The part after the comparison of the two sets.
  unfoldable pub apply_changes :
      List String → List String → List String → Proc W Failure PolicyReconciliationResult
  apply_changes to_attach to_detach current_policies = do
    let actually = set_of [] current_policies
    remaining ←
        detach_loop client role_name (detach_failure to_detach current_policies) to_detach actually
    final ← attach_loop client role_name (attach_failure to_detach) to_attach remaining 0
    pure (result_of final (pos (length to_attach)) (pos (length to_detach)))

  -- `reconcilePolicyAttachments`
  unfoldable pub reconcile_policy_attachments :
      List String → Proc W Failure PolicyReconciliationResult
  reconcile_policy_attachments desired_policies = do
    current_policies ←
        list_attached_policies client role_name or_return λ e. record { result = none; error = e }
    let to_attach = missing desired_policies current_policies
    let to_detach = missing current_policies desired_policies
    if is_empty to_attach && is_empty to_detach
        then pure (result_of (set_of [] current_policies) (pos 0) (pos 0))
        else apply_changes to_attach to_detach current_policies
