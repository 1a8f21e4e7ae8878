-- ===== src/SecretPush/Client.antt =====
-- The operations of the AWS Secrets Manager client that the provider calls. The client is not part
-- of the repository: its operations are parameters over an unknown world `W`.
use componator_aws_providers.Prelude.{String, Bool, Option, List}
use componator_aws_providers.Prelude.Int.{ℤ}
use componator_aws_providers.Go.{GoError}
use componator_aws_providers.Go.Flow.{Proc}
use componator_aws_providers.Aws.{Tag}

-- `secretsmanager.CreateSecretInput`; the key is left out where the configuration has none.
pub record CreateSecretInput : Type 0 where
  pub name : String
  pub secret_string : String
  pub tags : List Tag
  pub kms_key_id : Option String

-- `secretsmanager.GetRandomPasswordInput`; every pointer of it is set.
pub record GetRandomPasswordInput : Type 0 where
  pub password_length : ℤ
  pub require_each_included_type : Bool
  pub exclude_punctuation : Bool
  pub exclude_numbers : Bool
  pub exclude_lowercase : Bool
  pub exclude_uppercase : Bool
  pub include_space : Bool
  pub exclude_characters : String

-- `describe_secret` gives the ARN and the name; `create_secret` and `update_secret` give the ARN and
-- the version; the flag of `delete_secret` is `ForceDeleteWithoutRecovery`.
pub record SecretsClient (W : Type 0) : Type 0 where
  pub describe_secret : String → Proc W GoError (Option String × Option String)
  pub create_secret : CreateSecretInput → Proc W GoError (Option String × Option String)
  pub update_secret : String → String → Proc W GoError (Option String × Option String)
  pub delete_secret : String → Bool → Proc W GoError (Unit {0})
  pub get_random_password : GetRandomPasswordInput → Proc W GoError (Option String)
