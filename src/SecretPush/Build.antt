-- ===== src/SecretPush/Build.antt =====
-- secretpush/operations.go: `buildSecretData` and `buildSecretTags`.
pub mod Data
use Prim.Native.String.{◌++◌ as ◌<>◌}
use componator_aws_providers.Prelude.{
  ℕ, suc, String, Option, none, some, List, [], ◌∷◌, ◌++◌, ◌==◌, if◌then◌else◌,
}
use componator_aws_providers.Go.{GoError, str, wrapf}
use componator_aws_providers.Go.Flow.{Proc, pure, ◌>>=◌, ◌or_return◌}
use componator_aws_providers.Toolkit.{NamespacedName}
use componator_aws_providers.SecretPush.Config.{GeneratorSpec, FieldSpec}
use componator_aws_providers.SecretPush.Client.{SecretsClient}
use componator_aws_providers.SecretPush.Calls.{get_random_password}

-- The three results of `buildSecretData` beside its error. The data is a map that is filled with
-- the fields in turn, and the names of the fields are distinct.
pub record SecretData : Type 0 where
  pub entries : List (String × String)
  pub generated_count : ℕ
  pub static_count : ℕ

abbrev pub no_data : SecretData
no_data = record { entries = []; generated_count = 0; static_count = 0 }

abbrev pub add_static : SecretData → String → String → SecretData
add_static d name value = record d {
  entries = d.entries ++ ((name, value) ∷ []);
  static_count = suc d.static_count;
}

abbrev pub add_generated : SecretData → String → String → SecretData
add_generated d name password = record d {
  entries = d.entries ++ ((name, password) ∷ []);
  generated_count = suc d.generated_count;
}

module _ {W : Type 0} (client : SecretsClient W) where
  abbrev pub generate : SecretData → String → Option GeneratorSpec → Proc W GoError SecretData
  generate d name none = pure d
  generate d name (some g) = do
    password ←
        get_random_password client g
        or_return wrapf "failed to generate password for field %s: %w" (str name ∷ [])
    pure (add_generated d name password)

  -- One round of the loop over the fields.
  unfoldable pub add_field : SecretData → String → FieldSpec → Proc W GoError SecretData
  add_field d name f =
      if f.value == "" then generate d name f.generator else pure (add_static d name f.value)

  -- The loop over the fields.
  unfoldable pub add_fields : SecretData → List (String × FieldSpec) → Proc W GoError SecretData
  add_fields d [] = pure d
  add_fields d ((name, f) ∷ fields) = do next ← add_field d name f; add_fields next fields

  -- `buildSecretData`
  unfoldable pub build_secret_data : List (String × FieldSpec) → Proc W GoError SecretData
  build_secret_data fields = add_fields no_data fields

-- `buildSecretTags`
unfoldable pub build_secret_tags : NamespacedName → List (String × String)
build_secret_tags n =
    ("managed-by", "componator") ∷ ("component", n.namespace <> ("/" <> n.name)) ∷ []
