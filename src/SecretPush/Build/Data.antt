-- ===== src/SecretPush/Build/Data.antt =====
-- What `buildSecretData` makes of the fields of a valid configuration.
use componator_aws_providers.Prelude.{
  suc, ◌+◌, String, ◌≡◌, refl, sym, ◌∙◌, ◌≢◌, inl, inr, false, some, List, [], ◌∷◌, ◌++◌, ◌==◌,
  length, arith, eq_iff,
}
use mathlib.Core.List.{append_assoc, append-nil}
use componator_aws_providers.Go.{GoError}
use componator_aws_providers.Go.Flow.{Result, ok, err, rescue, continue, Result-cases}
use componator_aws_providers.Aws.{to_string}
use componator_aws_providers.SecretPush.Config.{GeneratorSpec, FieldSpec}
use componator_aws_providers.SecretPush.Config.Validity.{IsFieldValid, AllFieldsValid}
use componator_aws_providers.SecretPush.Client.{SecretsClient}
use componator_aws_providers.SecretPush.Calls.{get_random_password, password_input}
use componator_aws_providers.SecretPush.Build.{
  SecretData, no_data, add_static, add_generated, add_field, add_fields, build_secret_data,
}

-- The entries are those of the fields, in turn and under their names, and a static value is taken as
-- it is.
abbrev pub Filled : List (String × FieldSpec) → List (String × String) → Type 0
Filled [] [] = Unit
Filled [] (e ∷ es) = ⊥
Filled (f ∷ fs) [] = ⊥
Filled ((name, f) ∷ fs) ((key, value) ∷ es) =
    (key ≡ name) × (f.value ≢ "" → value ≡ f.value) × Filled fs es

module _ {W : Type 0} (client : SecretsClient W) where
  -- A round over a valid field has no error, and adds and counts one entry.
  abbrev AddsOne : SecretData → String → FieldSpec → Result GoError SecretData → Type 0
  AddsOne d name f r =
      (r' : SecretData) × (value : String) × (r ≡ ok r')
      × (r'.entries ≡ d.entries ++ ((name, value) ∷ []))
      × (f.value ≢ "" → value ≡ f.value)
      × (r'.generated_count + r'.static_count ≡ d.generated_count + d.static_count + 1)

  -- A generated field never fails: what the service refuses is the empty text.
  password_total :
      (g : GeneratorSpec) (w : W) → (p : String) × ((get_random_password client g w).0 ≡ ok p)
  unfolding get_random_password
  password_total g w = elim (Result-cases (client.get_random_password (password_input g) w).0) [
    | inl (e, h) ↦ ("", rw (h, rescue, continue))
    | inr (p, h) ↦ (to_string p, rw (h, rescue, continue))
  ]

  add_generator :
      (d : SecretData) (name : String) (f : FieldSpec) (g : GeneratorSpec) (w : W)
      → f.value ≡ ""
      → f.generator ≡ some g
      → AddsOne d name f (add_field client d name f w).0
  unfolding add_field
  add_generator d name f g w v e =
      let (p, h) = password_total g w in
      (
        add_generated d name p,
        p,
        simp (v, e) (rw (h, rescue, continue)),
        refl,
        λ n. absurd (n v),
        omega arith,
      )

  add_value :
      (d : SecretData) (name : String) (f : FieldSpec) (w : W)
      → (f.value == "") ≡ false
      → AddsOne d name f (add_field client d name f w).0
  unfolding add_field
  add_value d name f w v =
      (add_static d name f.value, f.value, simp v, refl, (λ n. refl), omega arith)

  add_field-AddsOne :
      (d : SecretData) (name : String) (f : FieldSpec) (w : W)
      → IsFieldValid f
      → AddsOne d name f (add_field client d name f w).0
  add_field-AddsOne d name f w (inl (v, none_set)) =
      add_value d name f w (ground (arith, v, eq_iff f.value ""))
  add_field-AddsOne d name f w (inr (v, (g, n, e, len, low, high))) = add_generator d name f g w v e

  abbrev AddsAll : SecretData → List (String × FieldSpec) → Result GoError SecretData → Type 0
  AddsAll d fields r =
      (r' : SecretData) × (es : List (String × String)) × (r ≡ ok r')
      × (r'.entries ≡ d.entries ++ es)
      × Filled fields es
      × (r'.generated_count + r'.static_count ≡ d.generated_count + d.static_count + length fields)

  add_fields-AddsAll :
      (d : SecretData) (fields : List (String × FieldSpec)) (w : W)
      → AllFieldsValid fields
      → AddsAll d fields (add_fields client d fields w).0
  unfolding add_fields
  add_fields-AddsAll d [] w v = (d, [], refl, sym (append-nil d.entries), tt, omega arith)
  add_fields-AddsAll d ((name, f) ∷ fields) w v =
      let (d₁, value, h, entries, static, count) = add_field-AddsOne d name f w v.0 in
      let (r, es, h', entries', filled, count') =
        add_fields-AddsAll d₁ fields (add_field client d name f w).1 v.1 in
      (
        r,
        (name, value) ∷ es,
        rw (h, continue) h',
        entries' ∙ rw entries (append_assoc d.entries ((name, value) ∷ []) es),
        (refl, static, filled),
        omega arith,
      )

  -- For valid fields `buildSecretData` always succeeds, whatever the service answers: the data has
  -- an entry for each field, under its name, with the value of a static field; and the two counts
  -- add up to the number of fields.
  pub build_secret_data_total :
      (fields : List (String × FieldSpec)) (w : W)
      → AllFieldsValid fields
      → (r : SecretData) × ((build_secret_data client fields w).0 ≡ ok r)
        × Filled fields r.entries
        × (r.generated_count + r.static_count ≡ length fields)
  unfolding build_secret_data
  build_secret_data_total fields w v =
      let (r, es, h, entries, filled, count) = add_fields-AddsAll no_data fields w v in
      (r, h, rw entries filled, omega arith)

  -- Where the service refuses a password, the field of the generator is pushed with the empty text
  -- and counted as generated, and no error is given.
  pub add_field_refused :
      (d : SecretData) (name : String) (f : FieldSpec) (g : GeneratorSpec) (e : GoError) (w : W)
      → f.value ≡ ""
      → f.generator ≡ some g
      → (client.get_random_password (password_input g) w).0 ≡ err e
      → add_field client d name f w ≡ (
        ok (record d {
          entries = d.entries ++ ((name, "") ∷ []);
          generated_count = suc d.generated_count;
        }),
        (client.get_random_password (password_input g) w).1,
      )
  unfolding add_field get_random_password
  add_field_refused d name f g e w v s h = simp (v, s) (rw (h, rescue, continue))
