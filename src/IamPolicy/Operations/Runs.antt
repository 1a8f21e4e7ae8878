-- ===== src/IamPolicy/Operations/Runs.antt =====
-- iampolicy/operations.go: which calls of the IAM client the handlers but `applyAction` make, by the
-- relations between worlds that the calls follow.
use componator_aws_providers.Prelude.{
  ℕ, suc, String, inl, inr, Option, none, some, List, [], ◌∷◌, ◌==◌, Bool-cases, if◌then◌else◌,
}
use componator_aws_providers.Go.Along.{
  Preorder, Along, pure-Along, stop-Along, >>=-Along, catch-Along, or_return-Along, if-Along,
}
use componator_aws_providers.Aws.{Checker}
use componator_aws_providers.Json.{Json}
use componator_aws_providers.IamPolicy.Config.{IamPolicyStatus}
use componator_aws_providers.IamPolicy.Client.{Policy, PolicyVersion, IamPolicyClient}
use componator_aws_providers.IamPolicy.Calls.{get_policy_by_arn, delete_policy}
use componator_aws_providers.IamPolicy.Versions.{
  delete_version, delete_versions, delete_policy_all_versions,
}
use componator_aws_providers.IamPolicy.Operations.{
  check_applied, delete_branch, delete_action, check_deleted,
}

-- The calls that delete a policy.
pub record Deletes {W : Type 0} (R : W → W → Type 0) (client : IamPolicyClient W) (arn : String)
    : Type 0 where
  pub get : Along R (client.get_policy arn)
  pub list : Along R (client.list_policy_versions arn)
  pub delete_version : (id : Option String) → Along R (client.delete_policy_version arn id)
  pub delete : Along R (client.delete_policy arn)

module _ {W : Type 0} {R : W → W → Type 0} (order : Preorder R) (client : IamPolicyClient W)
    (arn : String) where
  pub get_policy_by_arn-Along :
      Along R (client.get_policy arn) → Along R (get_policy_by_arn client arn)
  unfolding get_policy_by_arn
  get_policy_by_arn-Along get =
      catch-Along order _ _ get (λ e. if-Along _ _ _ (pure-Along order _) (stop-Along order _))

  module _ (calls : Deletes R client arn) where
    delete_version-Along : (v : PolicyVersion) → Along R (delete_version client arn v)
    unfolding delete_version
    delete_version-Along v = if-Along _ _ _ (pure-Along order _) (
        catch-Along order _ _
          (>>=-Along order _ _ (calls.delete_version v.version_id) (λ u. pure-Along order _))
          (λ e. if-Along _ _ _ (pure-Along order _) (stop-Along order _)))

    delete_versions-Along :
        (vs : List PolicyVersion) (n : ℕ) → Along R (delete_versions client arn vs n)
    unfolding delete_versions
    delete_versions-Along [] n = pure-Along order n
    delete_versions-Along (v ∷ vs) n =
        >>=-Along order _ _ (delete_version-Along v)
          (λ deleted. delete_versions-Along vs (if deleted then suc n else n))

    delete_policy_all_versions-Along : Along R (delete_policy_all_versions client arn)
    unfolding delete_policy_all_versions
    delete_policy_all_versions-Along =
        >>=-Along order _ _
          (catch-Along order _ _ calls.list
            (λ e. if-Along _ _ _ (pure-Along order _) (stop-Along order _)))
          (λ vs. delete_versions-Along vs 0)

    delete_policy-Along : Along R (delete_policy client arn)
    unfolding delete_policy
    delete_policy-Along =
        catch-Along order _ _ calls.delete
          (λ e. if-Along _ _ _ (pure-Along order _) (stop-Along order _))

module _ {W : Type 0} (json : Json) (checkers : List Checker) (client : IamPolicyClient W)
    {R : W → W → Type 0} (order : Preorder R) (status : IamPolicyStatus) (w : W) where
  pub check_applied-Along :
      Along R (client.get_policy status.policy_arn)
      → R w (check_applied json checkers client status w).1
  unfolding check_applied
  check_applied-Along get = elim (Bool-cases (status.policy_arn == "")) [
    | inl e ↦ rw e (order.same w)
    | inr e ↦ rw e (
        (>>=-Along order _ _
            (or_return-Along order _ _ (get_policy_by_arn-Along order client status.policy_arn get))
            (λ policy. pure-Along order _)).run
          w)
  ]

  pub check_deleted-Along :
      Along R (client.get_policy status.policy_arn)
      → R w (check_deleted json checkers client status w).1
  unfolding check_deleted
  check_deleted-Along get = elim (Bool-cases (status.policy_arn == "")) [
    | inl e ↦ rw e (order.same w)
    | inr e ↦ rw e (
        (>>=-Along order _ _
            (or_return-Along order _ _ (get_policy_by_arn-Along order client status.policy_arn get))
            (λ policy. pure-Along order _)).run
          w)
  ]

  module _ (calls : Deletes R client status.policy_arn) where
    delete_branch-Along :
        (p : Option Policy) → Along R (delete_branch json checkers client status p)
    unfolding delete_branch
    delete_branch-Along none = pure-Along order _
    delete_branch-Along (some p) =
        let arn = status.policy_arn in
        >>=-Along order _ _
          (or_return-Along order _ _ (delete_policy_all_versions-Along order client arn calls))
          (λ n.
            >>=-Along order _ _
              (or_return-Along order _ _ (delete_policy-Along order client arn calls))
              (λ u. pure-Along order _))

    pub delete_action-Along : R w (delete_action json checkers client status w).1
    unfolding delete_action
    delete_action-Along = elim (Bool-cases (status.policy_arn == "")) [
      | inl e ↦ rw e (order.same w)
      | inr e ↦ rw e (
          (>>=-Along order _ _
              (or_return-Along order _ _
                (get_policy_by_arn-Along order client status.policy_arn calls.get))
              (λ p. delete_branch-Along p)).run
            w)
    ]
