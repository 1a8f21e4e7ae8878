-- ===== src/IamRole/Client.antt =====
-- The operations of the AWS IAM client that the role provider calls. The client is not part of the
-- repository: its operations are parameters over an unknown world `W`.
use componator_aws_providers.Prelude.{String, Option, List}
use componator_aws_providers.Prelude.Int.{ℤ}
use componator_aws_providers.Go.{GoError}
use componator_aws_providers.Go.Flow.{Proc}
use componator_aws_providers.Aws.{Tag}

-- `types.Role`, the fields that the code reads.
pub record Role : Type 0 where
  pub arn : Option String
  pub role_id : Option String
  pub role_name : Option String
  pub assume_role_policy_document : Option String

-- `iam.CreateRoleInput`; every pointer of it is set.
pub record CreateRoleInput : Type 0 where
  pub role_name : String
  pub assume_role_policy_document : String
  pub path : String
  pub max_session_duration : ℤ
  pub description : String
  pub tags : List Tag

-- `ListAttachedRolePolicies` gives the ARN pointers of one page of its answer, which is all that
-- the code reads.
pub record IamRoleClient (W : Type 0) : Type 0 where
  pub get_role : String → Proc W GoError (Option Role)
  pub create_role : CreateRoleInput → Proc W GoError Role
  pub update_assume_role_policy : String → String → Proc W GoError (Unit {0})
  pub list_attached_role_policies : String → Proc W GoError (List (Option String))
  pub attach_role_policy : String → String → Proc W GoError (Unit {0})
  pub detach_role_policy : String → String → Proc W GoError (Unit {0})
  pub delete_role : String → Proc W GoError (Unit {0})
