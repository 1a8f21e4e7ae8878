-- ===== src/IamRole/Config.antt =====
-- iamrole/config.go: the configuration and the status of a role, and the validation of a
-- configuration. An `int32` is an integer; the code only compares it with 0.
pub mod Resolution
use componator_aws_providers.Prelude.{String, List, [], is_empty, ◌==◌, if◌then◌else◌}
use componator_aws_providers.Prelude.Int.{ℤ, pos, is_zero}
use componator_aws_providers.Go.{GoError, errorf}
use componator_aws_providers.Go.Flow.{Result, ok, err}
use componator_aws_providers.Json.{Json}

pub record IamRoleConfig : Type 0 where
  pub role_name : String
  pub assume_role_policy : String
  pub description : String
  pub max_session_duration : ℤ
  pub path : String
  pub managed_policy_arns : List String
  pub tags : List (String × String)

pub record IamRoleStatus : Type 0 where
  pub role_arn : String
  pub role_id : String
  pub role_name : String
  pub attached_policies : List String

abbrev default_path : IamRoleConfig → IamRoleConfig
default_path c = if c.path == "" then record c { path = "/" } else c

abbrev default_duration : IamRoleConfig → IamRoleConfig
default_duration c =
    if is_zero c.max_session_duration then record c { max_session_duration = pos 3600 } else c

-- `applyDefaults`; its error is always nil.
unfoldable pub apply_defaults : IamRoleConfig → IamRoleConfig
apply_defaults c = default_duration (default_path c)

-- `resolveSpec`
module _ (json : Json) where
  unfoldable pub resolve_spec : IamRoleConfig → Result GoError IamRoleConfig
  unfolding apply_defaults
  resolve_spec c =
      if c.role_name == ""
      then err (errorf "roleName is required and cannot be empty" [])
      else if c.assume_role_policy == ""
      then err (errorf "assumeRolePolicy is required and cannot be empty" [])
      else if is_empty c.managed_policy_arns
      then err (errorf "managedPolicyArns is required and must contain at least one policy ARN" [])
      else if json.valid c.assume_role_policy
      then ok (apply_defaults c)
      else err (errorf "assumeRolePolicy must be valid JSON" [])
