-- ===== src/SecretPush/Kept.antt =====
-- secretpush/operations.go and secretpush/aws_secretsman.go: the texts of the secrets over the
-- building of the data and the look-up.
use componator_aws_providers.Prelude.{String, ◌≡◌, refl, ◌∙◌, Option, none, some, List, [], ◌∷◌}
use componator_aws_providers.Go.Along.{
  Preorder, Along, pure-Along, stop-Along, >>=-Along, catch-Along, or_return-Along, if-Along,
}
use componator_aws_providers.SecretPush.Config.{FieldSpec, GeneratorSpec}
use componator_aws_providers.SecretPush.Client.{SecretsClient}
use componator_aws_providers.SecretPush.Calls.{find_secret, get_random_password}
use componator_aws_providers.SecretPush.Build.{
  SecretData, no_data, generate, add_field, add_fields, build_secret_data,
}
use componator_aws_providers.SecretPush.Storage.{StoresSecrets}

module _ {W : Type 0} (client : SecretsClient W) (stored : W → String → Option String)
    (stores : StoresSecrets client stored) where
  -- The text of the secret `n` is the same in both worlds.
  abbrev pub Keeping : String → W → W → Type 0
  Keeping n w w' = stored w' n ≡ stored w n

  abbrev pub keeping : (n : String) → Preorder (Keeping n)
  keeping n = record { same = λ w. refl; trans = λ u v w first second. second ∙ first }

  password-Keeping :
      (n : String) (g : GeneratorSpec) → Along (Keeping n) (get_random_password client g)
  unfolding get_random_password
  password-Keeping n g =
      catch-Along (keeping n) _ _
        (>>=-Along (keeping n) (client.get_random_password _) _
          (record { run = λ w. stores.password_keeps _ n w })
          (λ password. pure-Along (keeping n) _))
        (λ e. pure-Along (keeping n) _)

  generate-Keeping :
      (n : String) (d : SecretData) (name : String) (g : Option GeneratorSpec)
      → Along (Keeping n) (generate client d name g)
  generate-Keeping n d name none = pure-Along (keeping n) d
  generate-Keeping n d name (some g) =
      >>=-Along (keeping n) _ _ (or_return-Along (keeping n) _ _ (password-Keeping n g))
        (λ password. pure-Along (keeping n) _)

  add_field-Keeping :
      (n : String) (d : SecretData) (name : String) (f : FieldSpec)
      → Along (Keeping n) (add_field client d name f)
  unfolding add_field
  add_field-Keeping n d name f =
      if-Along _ _ _ (generate-Keeping n d name f.generator) (pure-Along (keeping n) _)

  add_fields-Keeping :
      (n : String) (d : SecretData) (fields : List (String × FieldSpec))
      → Along (Keeping n) (add_fields client d fields)
  unfolding add_fields
  add_fields-Keeping n d [] = pure-Along (keeping n) d
  add_fields-Keeping n d ((name, f) ∷ fields) =
      >>=-Along (keeping n) _ _ (add_field-Keeping n d name f)
        (λ next. add_fields-Keeping n next fields)

  pub find_secret-Keeping : (n id : String) → Along (Keeping n) (find_secret client id)
  unfolding find_secret
  find_secret-Keeping n id =
      catch-Along (keeping n) _ _
        (>>=-Along (keeping n) (client.describe_secret id) _
          (record { run = stores.describe_keeps id n }) (λ output. pure-Along (keeping n) _))
        (λ e. if-Along _ _ _ (pure-Along (keeping n) _) (stop-Along (keeping n) _))

  pub build_secret_data-Keeping :
      (n : String) (fields : List (String × FieldSpec))
      → Along (Keeping n) (build_secret_data client fields)
  unfolding build_secret_data
  build_secret_data-Keeping n fields = add_fields-Keeping n no_data fields
