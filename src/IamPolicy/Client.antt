-- ===== src/IamPolicy/Client.antt =====
-- The operations of the AWS IAM client that the policy provider calls. The client is not part of
-- the repository: its operations are parameters over an unknown world `W`.
use componator_aws_providers.Prelude.{ℕ, String, Bool, Option, List}
use componator_aws_providers.Go.{GoError}
use componator_aws_providers.Go.Flow.{Proc}
use componator_aws_providers.Aws.{Tag}

-- `types.Policy`, the fields that the code reads.
pub record Policy : Type 0 where
  pub arn : Option String
  pub policy_id : Option String
  pub policy_name : Option String
  pub default_version_id : Option String

-- `types.PolicyVersion`. The date of creation is never nil in an answer, and only its order is
-- used, so a number stands for it.
pub record PolicyVersion : Type 0 where
  pub version_id : Option String
  pub is_default_version : Bool
  pub create_date : ℕ

-- `iam.CreatePolicyInput`; every pointer of it is set.
pub record CreatePolicyInput : Type 0 where
  pub policy_name : String
  pub policy_document : String
  pub path : String
  pub description : String
  pub tags : List Tag

-- `iam.CreatePolicyVersionInput`
pub record CreatePolicyVersionInput : Type 0 where
  pub policy_arn : String
  pub policy_document : String
  pub set_as_default : Bool

-- The listings give one page of their answer, which is all that the code reads.
-- `list_policies` is asked for the scope `Local`; `create_policy_version` gives the version's id and
-- `get_policy_version` its document.
pub record IamPolicyClient (W : Type 0) : Type 0 where
  pub list_policies : String → Proc W GoError (List Policy)
  pub get_policy : String → Proc W GoError (Option Policy)
  pub create_policy : CreatePolicyInput → Proc W GoError Policy
  pub create_policy_version : CreatePolicyVersionInput → Proc W GoError (Option String)
  pub list_policy_versions : String → Proc W GoError (List PolicyVersion)
  pub get_policy_version : String → String → Proc W GoError (Option String)
  pub delete_policy_version : String → Option String → Proc W GoError (Unit {0})
  pub delete_policy : String → Proc W GoError (Unit {0})
