-- ===== src/IamPolicy/Operations/Reading.antt =====
-- iampolicy/aws_iampolicy.go: the helpers that read a policy or make room for a version, along a
-- preorder that the calls they are made of follow.
use componator_aws_providers.Prelude.{String, Option, none, some}
use componator_aws_providers.Go.Along.{
  Preorder, Along, pure-Along, stop-Along, >>=-Along, or_return-Along, if-Along,
}
use componator_aws_providers.Aws.{to_string}
use componator_aws_providers.IamPolicy.Client.{Policy, PolicyVersion, IamPolicyClient}
use componator_aws_providers.IamPolicy.Calls.{get_policy_by_name}
use componator_aws_providers.IamPolicy.Versions.{
  delete_old, delete_oldest_policy_version, default_document, get_current_policy_document,
}
use componator_aws_providers.IamPolicy.Operations.Runs.{get_policy_by_arn-Along}

-- The calls that make no policy and no version.
pub record ReadsAlong {W : Type 0} (client : IamPolicyClient W) (R : W → W → Type 0) : Type 0 where
  pub list : (path : String) → Along R (client.list_policies path)
  pub get : (arn : String) → Along R (client.get_policy arn)
  pub list_versions : (arn : String) → Along R (client.list_policy_versions arn)
  pub get_version : (arn id : String) → Along R (client.get_policy_version arn id)
  pub delete_version :
      (arn : String) (id : Option String) → Along R (client.delete_policy_version arn id)

module _ {W : Type 0} (client : IamPolicyClient W) {R : W → W → Type 0} (order : Preorder R)
    (reads : ReadsAlong client R) where
  pub get_policy_by_name-Along :
      (name path : String) → Along R (get_policy_by_name client name path)
  unfolding get_policy_by_name
  get_policy_by_name-Along name path =
      >>=-Along order _ _ (or_return-Along order _ _ (reads.list path))
        (λ policies. pure-Along order _)

  delete_old-Along : (id : String) (v : Option PolicyVersion) → Along R (delete_old client id v)
  delete_old-Along id none = pure-Along order tt
  delete_old-Along id (some v) = or_return-Along order _ _ (reads.delete_version id v.version_id)

  pub delete_oldest-Along : (id : String) → Along R (delete_oldest_policy_version client id)
  unfolding delete_oldest_policy_version
  delete_oldest-Along id =
      >>=-Along order _ _ (or_return-Along order _ _ (reads.list_versions id))
        (λ versions. if-Along _ _ _ (pure-Along order _) (delete_old-Along id _))

  default_document-Along :
      (id : String) (p : Option Policy) → Along R (default_document client id p)
  default_document-Along id none = stop-Along order _
  default_document-Along id (some p) =
      >>=-Along order _ _
        (or_return-Along order _ _ (reads.get_version id (to_string p.default_version_id)))
        (λ document. pure-Along order _)

  pub get_current-Along : (id : String) → Along R (get_current_policy_document client id)
  unfolding get_current_policy_document
  get_current-Along id =
      >>=-Along order _ _ (get_policy_by_arn-Along order client id (reads.get id))
        (λ p. default_document-Along id p)
