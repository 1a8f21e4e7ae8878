-- ===== src/SecretPush/Operations/Stored.antt =====
-- The secret after `applyAction` of the secret push provider.
use componator_aws_providers.Prelude.{
  String, ◌≡◌, ◌≢◌, ◌∙◌, ◌⊎◌, inl, inr, Option, none, some, List, ◌==◌, arith, eq_iff, Bool-cases,
  if◌then◌else◌,
}
use componator_aws_providers.Prelude.Texts.{IsNodup}
use componator_aws_providers.Go.Flow.{ok, rescue, continue, merge, body, Result-cases}
use componator_aws_providers.Aws.{to_iam_tags, Checker}
use componator_aws_providers.Toolkit.{
  NamespacedName, ActionResult, action_success, action_failure, action_result_for_error,
}
use componator_aws_providers.SecretPush.Config.{
  if_not_exists, FieldSpec, SecretPushSpec, SecretPushStatus, resolve_spec,
}
use componator_aws_providers.SecretPush.Config.Validity.{AllFieldsValid, resolve_spec-IsValid}
use componator_aws_providers.SecretPush.Client.{CreateSecretInput, SecretsClient}
use componator_aws_providers.SecretPush.Calls.{
  Marshal, is_resource_not_found, find_secret, create_secret, update_secret,
}
use componator_aws_providers.SecretPush.Build.{SecretData, build_secret_data, build_secret_tags}
use componator_aws_providers.SecretPush.Build.Data.{Filled, build_secret_data_total}
use componator_aws_providers.SecretPush.Storage.{
  names, StoresSecrets, ReadsBack, Holds, names-Filled, Filled-IsValueOf,
}
use componator_aws_providers.SecretPush.Kept.{build_secret_data-Keeping, find_secret-Keeping}
use componator_aws_providers.SecretPush.Operations.{
  push, apply_resolved, apply_validated, apply_action,
}

module _ {W : Type 0} (marshal : Marshal) (region : String) (checkers : List Checker)
    (client : SecretsClient W) (stored : W → String → Option String)
    (stores : StoresSecrets client stored) (read : String → String → Option String)
    (reads : ReadsBack marshal read) where
  -- An ARN that the look-up finds is one of a secret.
  found_stored :
      (id arn found_name : String) (w : W)
      → (find_secret client id w).0 ≡ ok (arn, found_name)
      → arn ≢ ""
      → stored w id ≢ none
  unfolding find_secret
  found_stored id arn found_name w h there = elim (Result-cases (client.describe_secret id w).0) [
    | inl (e, g) ↦ elim (Bool-cases (is_resource_not_found e)) [
      | inl missing ↦ λ z. there (cc (rw (g, rescue, continue, missing) at h))
      | inr other ↦ λ z. cc (rw (g, rescue, continue, other) at h)
    ]
    | inr ((a, b), g) ↦
        stores.described id w a b g (λ z. there (cc (rw (g, rescue, continue) at h)))
  ]

  -- A success leaves a secret that holds the fields, or, where the policy is not to update, the
  -- secret that was there. Nothing is said of other results.
  abbrev pub Stored : SecretPushSpec → W → ActionResult SecretPushStatus × W → Type 0
  Stored spec w₀ (action_success s m, w) =
      Holds read spec.fields (stored w spec.secret_name)
      ⊎ ((spec.update_policy ≡ if_not_exists)
          × (stored w₀ spec.secret_name ≢ none)
          × (stored w spec.secret_name ≡ stored w₀ spec.secret_name))
  Stored spec w₀ (action_failure s m, w) = Unit
  Stored spec w₀ (action_result_for_error s e c, w) = Unit

  marshalled :
      (fields : List (String × FieldSpec)) (entries : List (String × String)) (text : String)
      → IsNodup (names fields)
      → Filled fields entries
      → marshal entries ≡ ok text
      → Holds read fields (some text)
  marshalled fields entries text distinct filled h k =
      rw (reads entries text (rw (names-Filled fields entries filled) distinct) h k)
        (Filled-IsValueOf fields entries filled k)

  abbrev created_input : SecretPushSpec → String → List (String × String) → CreateSecretInput
  created_input spec text tags = record {
    name = spec.secret_name;
    secret_string = text;
    tags = to_iam_tags tags;
    kms_key_id = if spec.kms_key_id == "" then none else some spec.kms_key_id;
  }

  create_secret-Holds :
      (spec : SecretPushSpec) (entries tags : List (String × String)) (w : W)
      (out : String × String)
      → IsNodup (names spec.fields)
      → Filled spec.fields entries
      → (create_secret client marshal spec.secret_name entries tags spec.kms_key_id w).0 ≡ ok out
      → Holds read spec.fields (
          stored
            (create_secret client marshal spec.secret_name entries tags spec.kms_key_id w).1
            spec.secret_name)
  unfolding create_secret
  create_secret-Holds spec entries tags w out distinct filled done =
      elim (Result-cases (marshal entries)) [
        | inl (e, h) ↦ cc (rw (h, rescue, continue) at done)
        | inr (text, h) ↦
            let input = created_input spec text tags in
            elim (Result-cases (client.create_secret input w).0) [
              | inl (e, g) ↦ cc (rw (g, rescue, continue) at (rw (h, rescue, continue) at done))
              | inr (o, g) ↦
                  rw (h, rescue, continue)
                    (rw (g, rescue, continue)
                      (rw (stores.create_stores input w o g)
                        (marshalled spec.fields entries text distinct filled h)))
            ]
      ]

  update_secret-Holds :
      (spec : SecretPushSpec) (entries : List (String × String)) (w : W) (out : String × String)
      → IsNodup (names spec.fields)
      → Filled spec.fields entries
      → (update_secret client marshal spec.secret_name entries w).0 ≡ ok out
      → Holds read spec.fields
          (stored (update_secret client marshal spec.secret_name entries w).1 spec.secret_name)
  unfolding update_secret
  update_secret-Holds spec entries w out distinct filled done =
      elim (Result-cases (marshal entries)) [
        | inl (e, h) ↦ cc (rw (h, rescue, continue) at done)
        | inr (text, h) ↦ elim (Result-cases (client.update_secret spec.secret_name text w).0) [
          | inl (e, g) ↦ cc (rw (g, rescue, continue) at (rw (h, rescue, continue) at done))
          | inr (o, g) ↦
              rw (h, rescue, continue)
                (rw (g, rescue, continue)
                  (rw (stores.update_stores spec.secret_name text w o g)
                    (marshalled spec.fields entries text distinct filled h)))
        ]
      ]

  push-Stored :
      (name : NamespacedName) (spec : SecretPushSpec) (status : SecretPushStatus) (d : SecretData)
      (arn : String) (w₀ w : W)
      → IsNodup (names spec.fields)
      → Filled spec.fields d.entries
      → (arn ≢ "" → stored w₀ spec.secret_name ≢ none)
      → stored w spec.secret_name ≡ stored w₀ spec.secret_name
      → Stored spec w₀ (body (push marshal region checkers client name spec status d arn) w)
  unfolding push
  push-Stored name spec status d arn w₀ w distinct filled there same =
      let tags = build_secret_tags name in
      elim (Bool-cases (arn == "")) [
        | inl new ↦
            elim (Result-cases
              (create_secret client marshal spec.secret_name d.entries tags spec.kms_key_id w).0) [
                | inl (e, h) ↦ rw new (rw (h, rescue, continue, merge) tt)
                | inr (out, h) ↦ rw new (
                    rw (h, rescue, continue, merge)
                      (inl (create_secret-Holds spec d.entries tags w out distinct filled h)))
              ]
        | inr old ↦ elim (Bool-cases (spec.update_policy == if_not_exists)) [
          | inl skip ↦
              rw (old, skip)
                (inr (
                  (eq_iff spec.update_policy if_not_exists).0 skip,
                  there (λ e. ground (arith, old, (eq_iff arn "").1 e)),
                  same,
                ))
          | inr policy ↦
              elim (Result-cases (update_secret client marshal spec.secret_name d.entries w).0) [
                | inl (e, h) ↦ rw (old, policy) (rw (h, rescue, continue, merge) tt)
                | inr (out, h) ↦
                    rw (old, policy)
                      (rw (h, rescue, continue, merge)
                        (inl (update_secret-Holds spec d.entries w out distinct filled h)))
              ]
        ]
      ]

  apply_resolved-Stored :
      (name : NamespacedName) (spec : SecretPushSpec) (status : SecretPushStatus) (w : W)
      → AllFieldsValid spec.fields
      → IsNodup (names spec.fields)
      → Stored spec w (body (apply_resolved marshal region checkers client name spec status) w)
  unfolding apply_resolved
  apply_resolved-Stored name spec status w valid distinct =
      let (d, built, filled, count) = build_secret_data_total client spec.fields w valid in
      let w₁ = (build_secret_data client spec.fields w).1 in
      let kept : stored w₁ spec.secret_name ≡ stored w spec.secret_name =
        (build_secret_data-Keeping client stored stores spec.secret_name spec.fields).run w in
      elim (Result-cases (find_secret client spec.secret_name w₁).0) [
        | inl (e, h) ↦ rw (built, rescue, continue) (rw (h, rescue, continue, merge) tt)
        | inr ((arn, found_name), h) ↦
            rw (built, rescue, continue)
              (rw (h, rescue, continue)
                (push-Stored name spec status d arn w _ distinct filled
                  (λ there z. found_stored spec.secret_name arn found_name w₁ h there (kept ∙ z))
                  ((find_secret-Keeping client stored stores spec.secret_name spec.secret_name).run
                      w₁
                    ∙ kept)))
      ]

  -- For an accepted configuration whose fields have different names, a success of `applyAction`
  -- leaves a secret that is read back with exactly the names of the fields and the values of the
  -- static ones; or else the policy is not to update, the secret was there before, and it is left as
  -- it was.
  pub apply_action-Stored :
      (name : NamespacedName) (spec resolved : SecretPushSpec) (status : SecretPushStatus) (w : W)
      → resolve_spec spec ≡ ok resolved
      → IsNodup (names spec.fields)
      → Stored resolved w (apply_action marshal region checkers client name spec status w)
  unfolding apply_action
  apply_action-Stored name spec resolved status w h distinct =
      let (v, e) = (resolve_spec-IsValid spec resolved).0 h in
      rw (h, apply_validated)
        (apply_resolved-Stored name resolved status w (rw e v.fields) (rw e distinct))
