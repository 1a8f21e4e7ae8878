-- ===== src/IamPolicy/Config.antt =====
-- iampolicy/config.go: the configuration and the status of a policy, and the validation of a
-- configuration.
pub mod Resolution
use componator_aws_providers.Prelude.{String, List, [], ◌==◌, if◌then◌else◌}
use componator_aws_providers.Go.{GoError, errorf}
use componator_aws_providers.Go.Flow.{Result, ok, err}
use componator_aws_providers.Json.{Json}

pub record IamPolicyConfig : Type 0 where
  pub policy_name : String
  pub policy_document : String
  pub description : String
  pub path : String
  pub tags : List (String × String)

pub record IamPolicyStatus : Type 0 where
  pub policy_arn : String
  pub policy_id : String
  pub policy_name : String
  pub current_version_id : String

-- `applyDefaults`; its error is always nil.
unfoldable pub apply_defaults : IamPolicyConfig → IamPolicyConfig
apply_defaults c = if c.path == "" then record c { path = "/" } else c

-- `resolveSpec`
unfoldable pub resolve_spec : Json → IamPolicyConfig → Result GoError IamPolicyConfig
unfolding apply_defaults
resolve_spec json c =
    if c.policy_name == ""
    then err (errorf "policyName is required and cannot be empty" [])
    else if c.policy_document == ""
    then err (errorf "policyDocument is required and cannot be empty" [])
    else if json.valid c.policy_document
    then ok (apply_defaults c)
    else err (errorf "policyDocument must be valid JSON" [])
