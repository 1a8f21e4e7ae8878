-- ===== src/Samples/Secret.antt =====
-- The theorems on the secret push provider, at a service that has every secret and refuses to
-- generate passwords.
use componator_aws_providers.Prelude.{
  String, List, ◌≡◌, refl, ◌↔◌, inl, inr, ◌+◌, true, false, none, some, [], ◌∷◌, length, arith,
  eq_iff,
}
use componator_aws_providers.Prelude.Int.{pos}
use componator_aws_providers.Go.{GoError, errorf}
use componator_aws_providers.Go.Flow.{ok, err}
use componator_aws_providers.Toolkit.{NamespacedName}
use componator_aws_providers.SecretPush.Config.{
  GeneratorSpec, FieldSpec, SecretPushSpec, SecretPushStatus, field_error, resolve_spec,
}
use componator_aws_providers.SecretPush.Config.Validity.{
  IsFieldValid, field_error-none_iff, IsValid, with_defaults, resolve_spec-IsValid,
}
use mathlib.Core.List.Perm
use componator_aws_providers.SecretPush.Config.Order.{is_ok, resolve_spec-Perm}
use componator_aws_providers.SecretPush.Client.{SecretsClient}
use componator_aws_providers.SecretPush.Calls.{Marshal}
use componator_aws_providers.SecretPush.Build.{SecretData, no_data, add_field, build_secret_data}
use componator_aws_providers.SecretPush.Build.Data.{
  Filled, build_secret_data_total, add_field_refused,
}

abbrev refused : GoError
refused = errorf "refused" []

abbrev service : SecretsClient (Unit {0})
service = record {
  describe_secret = λ id w. (ok (some "arn:secret", some "secret"), w);
  create_secret = λ c w. (ok (some "arn:secret", some "v1"), w);
  update_secret = λ id value w. (ok (some "arn:secret", some "v2"), w);
  delete_secret = λ id force w. (ok tt, w);
  get_random_password = λ g w. (err refused, w);
}

abbrev pub marshal : Marshal
marshal entries = ok "{}"

abbrev generator : GeneratorSpec
generator = record {
  password_length = pos 16;
  require_each_included_type = true;
  exclude_punctuation = false;
  exclude_numbers = false;
  exclude_lowercase = false;
  exclude_uppercase = false;
  include_space = false;
  exclude_characters = "";
}

abbrev static_field : FieldSpec
static_field = record { value = "owner"; generator = none }

abbrev generated_field : FieldSpec
generated_field = record { value = ""; generator = some generator }

static_field-IsFieldValid : IsFieldValid static_field
static_field-IsFieldValid = inl ((λ e. ground (arith, (eq_iff "owner" "").1 e)), refl)

generated_field-IsFieldValid : IsFieldValid generated_field
generated_field-IsFieldValid = inr (refl, (generator, 16, refl, refl, omega arith, omega arith))

abbrev pub spec : SecretPushSpec
spec = record {
  secret_name = "secret";
  kms_key_id = "";
  fields = ("user", static_field) ∷ ("password", generated_field) ∷ [];
  update_policy = "";
  deletion_policy = "Retain";
}

abbrev pub status : SecretPushStatus
status = record {
  secret_arn = "arn:secret";
  secret_name = "secret";
  version_id = "v1";
  region = "";
  last_sync_time = "";
  field_count = 2;
}

abbrev pub name : NamespacedName
name = record { namespace = "ns"; name = "component" }

field_error-none_iff_example :
    (field_error "password" generated_field ≡ none) ↔ IsFieldValid generated_field
field_error-none_iff_example = field_error-none_iff "password" generated_field

resolve_spec-IsValid_example :
    (resolve_spec spec ≡ ok (with_defaults spec))
    ↔ (IsValid spec × (with_defaults spec ≡ with_defaults spec))
resolve_spec-IsValid_example = resolve_spec-IsValid spec (with_defaults spec)

build_secret_data_total_example :
    (r : SecretData) × ((build_secret_data service spec.fields tt).0 ≡ ok r)
    × Filled spec.fields r.entries
    × (r.generated_count + r.static_count ≡ length spec.fields)
build_secret_data_total_example =
    build_secret_data_total service spec.fields tt
      (static_field-IsFieldValid, (generated_field-IsFieldValid, tt))

add_field_refused_example :
    add_field service no_data "password" generated_field tt
    ≡ (ok (record no_data { entries = ("password", "") ∷ []; generated_count = 1 }), tt)
add_field_refused_example =
    add_field_refused service no_data "password" generated_field generator refused tt refl refl refl

abbrev reordered : List (String × FieldSpec)
reordered = ("password", generated_field) ∷ ("user", static_field) ∷ []

resolve_spec-Perm_example :
    is_ok (resolve_spec spec) ≡ is_ok (resolve_spec (record spec { fields = reordered }))
resolve_spec-Perm_example =
    resolve_spec-Perm spec reordered
      (Perm.swap ("password", generated_field) ("user", static_field) [])
