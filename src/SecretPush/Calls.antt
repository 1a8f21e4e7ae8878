-- ===== src/SecretPush/Calls.antt =====
-- secretpush/aws_secretsman.go: the calls of the Secrets Manager client. `marshal` is `json.Marshal`
-- at a `map[string]string`.
use componator_aws_providers.Prelude.{
  String, Bool, true, Option, none, some, List, [], ◌==◌, if◌then◌else◌,
}
use componator_aws_providers.Go.{Exception, GoError, wrapf, textf, as_sdk}
use componator_aws_providers.Go.Flow.{Result, Proc, pure, stop, ◌>>=◌, ◌catch◌, ◌or_return◌}
use componator_aws_providers.Aws.{to_string, has_exception, to_iam_tags}
use componator_aws_providers.SecretPush.Config.{GeneratorSpec}
use componator_aws_providers.SecretPush.Client.{GetRandomPasswordInput, SecretsClient}

-- `errors.As(err, &notFoundErr)` for `ResourceNotFoundException`.
unfoldable pub is_resource_not_found : GoError → Bool
unfolding as_sdk
is_resource_not_found e = has_exception Exception.resource_not_found (as_sdk e)

-- What `json.Marshal` is given and gives.
abbrev pub Marshal : Type 0
Marshal = List (String × String) → Result GoError String

abbrev strings_of : Option String × Option String → String × String
strings_of (a, b) = (to_string a, to_string b)

-- The input of `getRandomPassword`.
abbrev pub password_input : GeneratorSpec → GetRandomPasswordInput
password_input g = record {
  password_length = g.password_length;
  require_each_included_type = g.require_each_included_type;
  exclude_punctuation = g.exclude_punctuation;
  exclude_numbers = g.exclude_numbers;
  exclude_lowercase = g.exclude_lowercase;
  exclude_uppercase = g.exclude_uppercase;
  include_space = g.include_space;
  exclude_characters = g.exclude_characters;
}

module _ {W : Type 0} (client : SecretsClient W) where
  -- `findSecret`: the ARN and the name, empty where there is no such secret.
  unfoldable pub find_secret : String → Proc W GoError (String × String)
  unfolding is_resource_not_found
  find_secret id = (do output ← client.describe_secret id; pure (strings_of output)) catch λ e.
      if is_resource_not_found e
      then pure ("", "")
      else stop (wrapf "failed to check secret existence: %w" [] e)

  abbrev lift : Result GoError String → Proc W GoError String
  lift r w = (r, w)

  -- `createSecret`: the ARN and the version.
  unfoldable pub create_secret :
      Marshal
      → String
      → List (String × String)
      → List (String × String)
      → String
      → Proc W GoError (String × String)
  unfolding to_iam_tags
  create_secret marshal name value tags kms_key_id = do
    value_json ← lift (marshal value) or_return textf "failed to marshal secret data: %s"
    output ←
        client.create_secret (record {
          name = name;
          secret_string = value_json;
          tags = to_iam_tags tags;
          kms_key_id = if kms_key_id == "" then none else some kms_key_id;
        })
        or_return wrapf "failed to create secret: %w" []
    pure (strings_of output)

  -- `updateSecret`: the ARN and the version.
  unfoldable pub update_secret :
      Marshal → String → List (String × String) → Proc W GoError (String × String)
  update_secret marshal name value = do
    value_json ← lift (marshal value) or_return textf "failed to marshal secret data: %s"
    output ← client.update_secret name value_json or_return wrapf "failed to update secret: %w" []
    pure (strings_of output)

  -- `deleteSecret`: a secret that is not there counts as deleted.
  unfoldable pub delete_secret : String → Proc W GoError (Unit {0})
  unfolding is_resource_not_found
  delete_secret secret_arn = client.delete_secret secret_arn true catch λ e.
      if is_resource_not_found e then pure tt else stop (wrapf "failed to delete secret: %w" [] e)

  -- `getRandomPassword`. Where the call fails, the source returns the empty text and a nil error.
  unfoldable pub get_random_password : GeneratorSpec → Proc W GoError String
  get_random_password g =
      (do password ← client.get_random_password (password_input g); pure (to_string password))
      catch λ e. pure ""
