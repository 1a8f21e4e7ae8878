-- ===== src/IamRole/Runs.antt =====
-- iamrole/aws_iamrole.go and iamrole/aws_iamrole_reconcile.go: which calls of the IAM client are made,
-- by the relations between worlds that the calls follow.
use componator_aws_providers.Prelude.{
  ℕ, suc, String, ◌≡◌, refl, Bool, true, false, List, [], ◌∷◌, arith, eq_refl,
}
use componator_aws_providers.Prelude.Int.{ℤ}
use componator_aws_providers.Prelude.Texts.{mem, insert, erase}
use componator_aws_providers.Go.{GoError}
use componator_aws_providers.Go.Along.{
  Preorder, Along, pure-Along, stop-Along, >>=-Along, catch-Along, or_return-Along, if-Along,
}
use componator_aws_providers.Json.{Json}
use componator_aws_providers.IamRole.Client.{CreateRoleInput, IamRoleClient}
use componator_aws_providers.IamRole.Calls.{
  get_role_by_name, list_attached_policies, create_role, update_trust_policy, attach_policy,
  detach_policy, delete_role,
}
use componator_aws_providers.IamRole.Reconcile.{
  Failure, missing, detach_loop, attach_loop, apply_changes, reconcile_policy_attachments,
}
use componator_aws_providers.IamRole.Reconcile.Changes.{mem-missing}

module _ {W : Type 0} (R : W → W → Type 0) (client : IamRoleClient W) (role : String) where
  -- The calls that bring a role to the policies `wanted`: none of these is ever detached, and no
  -- other is ever attached.
  pub record Applies (wanted : String → Bool) : Type 0 where
    pub get : Along R (client.get_role role)
    pub create : (c : CreateRoleInput) → c.role_name ≡ role → Along R (client.create_role c)
    pub update : (document : String) → Along R (client.update_assume_role_policy role document)
    pub list : Along R (client.list_attached_role_policies role)
    pub attach : (p : String) → wanted p ≡ true → Along R (client.attach_role_policy role p)
    pub detach : (p : String) → wanted p ≡ false → Along R (client.detach_role_policy role p)

  -- The calls that delete a role.
  pub record Deletes : Type 0 where
    pub get : Along R (client.get_role role)
    pub list : Along R (client.list_attached_role_policies role)
    pub detach : (p : String) → Along R (client.detach_role_policy role p)
    pub delete : Along R (client.delete_role role)

module _ {W : Type 0} {R : W → W → Type 0} (order : Preorder R) (client : IamRoleClient W)
    (role : String) where
  pub get_role_by_name-Along :
      Along R (client.get_role role) → Along R (get_role_by_name client role)
  unfolding get_role_by_name
  get_role_by_name-Along get =
      catch-Along order _ _ get (λ e. if-Along _ _ _ (pure-Along order _) (stop-Along order _))

  pub list_attached_policies-Along :
      Along R (client.list_attached_role_policies role)
      → Along R (list_attached_policies client role)
  unfolding list_attached_policies
  list_attached_policies-Along list =
      >>=-Along order _ _ (or_return-Along order _ _ list) (λ output. pure-Along order _)

  pub detach_policy-Along :
      (p : String)
      → Along R (client.detach_role_policy role p)
      → Along R (detach_policy client role p)
  unfolding detach_policy
  detach_policy-Along p = or_return-Along order _ _

  pub delete_role-Along : Along R (client.delete_role role) → Along R (delete_role client role)
  unfolding delete_role
  delete_role-Along delete =
      catch-Along order _ _ delete (λ e. if-Along _ _ _ (pure-Along order _) (stop-Along order _))

  module _ (wanted : String → Bool) (calls : Applies R client role wanted) where
    pub update_trust_policy-Along :
        (json : Json) (current desired : String)
        → Along R (update_trust_policy client json role current desired)
    unfolding update_trust_policy
    update_trust_policy-Along json current desired =
        if-Along _ _ _ (pure-Along order _) (or_return-Along order _ _ (calls.update desired))

    pub create_role-Along :
        (trust path description : String) (duration : ℤ) (tags : List (String × String))
        → Along R (create_role client role trust path description duration tags)
    unfolding create_role
    create_role-Along trust path description duration tags =
        or_return-Along order _ _ (calls.create _ refl)

    detach_loop-Along :
        (failed : List String → String → GoError → Failure) (arns xs : List String)
        → ((a : String) → mem a arns ≡ true → wanted a ≡ false)
        → Along R (detach_loop client role failed arns xs)
    unfolding detach_loop mem
    detach_loop-Along failed [] xs d = pure-Along order xs
    detach_loop-Along failed (p ∷ rest) xs d =
        >>=-Along order _ _
          (or_return-Along order _ _
            (detach_policy-Along p (calls.detach p (ground (arith, d p, eq_refl p)))))
          (λ u. detach_loop-Along failed rest (erase p xs) (λ a m. ground (arith, d a, m)))

    attach_loop-Along :
        (failed : List String → ℕ → String → GoError → Failure) (arns xs : List String) (n : ℕ)
        → ((a : String) → mem a arns ≡ true → wanted a ≡ true)
        → Along R (attach_loop client role failed arns xs n)
    unfolding attach_loop attach_policy mem
    attach_loop-Along failed [] xs n d = pure-Along order xs
    attach_loop-Along failed (p ∷ rest) xs n d =
        >>=-Along order _ _
          (or_return-Along order _ _
            (or_return-Along order _ _ (calls.attach p (ground (arith, d p, eq_refl p)))))
          (λ u. attach_loop-Along failed rest (insert p xs) (suc n) (λ a m. ground (arith, d a, m)))

    apply_changes-Along :
        (to_attach to_detach current : List String)
        → ((a : String) → mem a to_attach ≡ true → wanted a ≡ true)
        → ((a : String) → mem a to_detach ≡ true → wanted a ≡ false)
        → Along R (apply_changes client role to_attach to_detach current)
    unfolding apply_changes
    apply_changes-Along to_attach to_detach current attached detached =
        >>=-Along order _ _ (detach_loop-Along _ to_detach _ detached) (λ remaining.
          >>=-Along order _ _ (attach_loop-Along _ to_attach remaining 0 attached)
            (λ final. pure-Along order _))

  pub reconcile-Along :
      (ds : List String)
      → Applies R client role (λ a. mem a ds)
      → Along R (reconcile_policy_attachments client role ds)
  unfolding reconcile_policy_attachments
  reconcile-Along ds calls =
      >>=-Along order _ _ (or_return-Along order _ _ (list_attached_policies-Along calls.list))
        (λ current. if-Along _ _ _ (pure-Along order _) (
          apply_changes-Along (λ a. mem a ds) calls (missing ds current) (missing current ds)
            current (λ a m. ground (arith, m, mem-missing a ds current))
            (λ a m. ground (arith, m, mem-missing a current ds))))
