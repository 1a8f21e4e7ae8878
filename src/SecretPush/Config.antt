-- ===== src/SecretPush/Config.antt =====
-- secretpush/config.go: the configuration and the status of a secret, and the validation of a
-- configuration. A map is the list of its entries in the order in which the loop meets them, and an
-- `int64` is an integer.
pub mod Order
pub mod Validity
use componator_aws_providers.Prelude.{
  ℕ, String, Bool, true, false, Option, none, some, List, [], ◌∷◌, is_empty, not, ◌&&◌, ◌==◌,
  if◌then◌else◌,
}
use componator_aws_providers.Prelude.Int.{ℤ, pos, is_nonpos, ltb_ℤ}
use componator_aws_providers.Prelude.Texts.{mem}
use componator_aws_providers.Go.{GoError, str, strings, errorf}
use componator_aws_providers.Go.Flow.{Result, ok, err}

-- `UpdatePolicy` and `DeletionPolicy` values, and the defaults.
abbrev pub if_not_exists : String
if_not_exists = "IfNotExists"

abbrev pub always_update : String
always_update = "AlwaysUpdate"

abbrev pub delete : String
delete = "Delete"

abbrev pub retain : String
retain = "Retain"

abbrev pub default_update_policy : String
default_update_policy = if_not_exists

abbrev pub default_deletion_policy : String
default_deletion_policy = delete

pub record GeneratorSpec : Type 0 where
  pub password_length : ℤ
  pub require_each_included_type : Bool
  pub exclude_punctuation : Bool
  pub exclude_numbers : Bool
  pub exclude_lowercase : Bool
  pub exclude_uppercase : Bool
  pub include_space : Bool
  pub exclude_characters : String

pub record FieldSpec : Type 0 where
  pub value : String
  pub generator : Option GeneratorSpec

pub record SecretPushSpec : Type 0 where
  pub secret_name : String
  pub kms_key_id : String
  pub fields : List (String × FieldSpec)
  pub update_policy : String
  pub deletion_policy : String

pub record SecretPushStatus : Type 0 where
  pub secret_arn : String
  pub secret_name : String
  pub version_id : String
  pub region : String
  pub last_sync_time : String
  pub field_count : ℕ

abbrev is_set : Option GeneratorSpec → Bool
is_set none = false
is_set (some g) = true

-- The check of a generator; `none` is no error.
abbrev generator_error : String → Option GeneratorSpec → Option GoError
generator_error name none = none
generator_error name (some g) =
    if is_nonpos g.password_length
    then some (errorf "field %s: passwordLength must be positive" (str name ∷ []))
    else if ltb_ℤ (pos 4096) g.password_length
    then some (errorf "field %s: passwordLength cannot exceed 4096 (AWS limit)" (str name ∷ []))
    else none

-- One round of the loop over the fields; `none` is no error.
unfoldable pub field_error : String → FieldSpec → Option GoError
field_error name f =
    let has_value = not (f.value == "") in
    let has_generator = is_set f.generator in
    if has_value && has_generator
    then some (errorf "field %s: cannot have both value and generator" (str name ∷ []))
    else if not has_value && not has_generator
    then some (errorf "field %s: must have either value or generator" (str name ∷ []))
    else generator_error name f.generator

abbrev or_else : Option GoError → Option GoError → Option GoError
or_else none e = e
or_else (some d) e = some d

-- The loop over the fields: the first error that it meets.
unfoldable pub fields_error : List (String × FieldSpec) → Option GoError
fields_error [] = none
fields_error ((name, f) ∷ fields) =
    let rest = fields_error fields in or_else (field_error name f) rest

-- `resolveEnumValue`
unfoldable pub resolve_enum_value : String → String → String → List String → Result GoError String
unfolding mem
resolve_enum_value value field_name default valid_values =
    if value == ""
    then ok default
    else if mem value valid_values
    then ok value
    else err (
        errorf "%s must be one of %v, got: %s"
          (str field_name ∷ strings valid_values ∷ str value ∷ []))

-- The part of `resolveSpec` after the loop.
unfoldable pub resolve_policies : SecretPushSpec → Result GoError SecretPushSpec
resolve_policies c =
    elim (resolve_enum_value c.update_policy "updatePolicy" default_update_policy
      (if_not_exists ∷ always_update ∷ [])) [
        | err e ↦ err e
        | ok update ↦
            elim (resolve_enum_value c.deletion_policy "deletionPolicy" default_deletion_policy
              (delete ∷ retain ∷ [])) [
                | err e ↦ err e
                | ok deletion ↦ ok (record c { update_policy = update; deletion_policy = deletion })
              ]
      ]

abbrev after_fields : Option GoError → SecretPushSpec → Result GoError SecretPushSpec
after_fields none c = resolve_policies c
after_fields (some e) c = err e

-- `resolveSpec`
unfoldable pub resolve_spec : SecretPushSpec → Result GoError SecretPushSpec
unfolding resolve_policies
resolve_spec c =
    if c.secret_name == ""
    then err (errorf "secretName is required and cannot be empty" [])
    else if is_empty c.fields
    then err (errorf "at least one field is required" [])
    else after_fields (fields_error c.fields) c
