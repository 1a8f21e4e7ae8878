-- ===== src/SecretPush/Operations/Unchanged.antt =====
-- A secret that is there and is not to be updated.
use componator_aws_providers.Prelude.{true, false, sym, ap}
use componator_aws_providers.Prelude.{
  String, ◌≡◌, ◌≢◌, refl, ◌∙◌, ◌⊎◌, inl, inr, Option, none, List, ◌==◌, arith, eq_iff, Bool-cases,
}
use componator_aws_providers.Go.Flow.{ok, rescue, continue, body, Result-cases}
use componator_aws_providers.Aws.{Checker}
use componator_aws_providers.Toolkit.{NamespacedName}
use componator_aws_providers.SecretPush.Config.{
  if_not_exists, SecretPushSpec, SecretPushStatus, resolve_spec,
}
use componator_aws_providers.SecretPush.Config.Validity.{resolve_spec-IsValid}
use componator_aws_providers.SecretPush.Client.{SecretsClient}
use componator_aws_providers.SecretPush.Calls.{Marshal, is_resource_not_found, find_secret}
use componator_aws_providers.SecretPush.Build.{build_secret_data}
use componator_aws_providers.SecretPush.Storage.{StoresSecrets, FindsSecrets}
use componator_aws_providers.SecretPush.Kept.{build_secret_data-Keeping, find_secret-Keeping}
use componator_aws_providers.SecretPush.Operations.{
  push, apply_resolved, apply_validated, apply_action,
}
use componator_aws_providers.SecretPush.Config.{retain, if_not_exists}
use componator_aws_providers.SecretPush.Operations.{delete_action}
use componator_aws_providers.SecretPush.Operations.Policies.{delete_action_kept}

module _ {W : Type 0} (marshal : Marshal) (region : String) (checkers : List Checker)
    (client : SecretsClient W) (stored : W → String → Option String)
    (stores : StoresSecrets client stored) (finds : FindsSecrets client stored) where
  pub find_secret_named :
      (id arn found_name : String) (w : W)
      → stored w id ≢ none
      → (find_secret client id w).0 ≡ ok (arn, found_name)
      → arn ≢ ""
  unfolding find_secret
  find_secret_named id arn found_name w there h empty =
      elim (Result-cases (client.describe_secret id w).0) [
        | inl (e, g) ↦ elim (Bool-cases (is_resource_not_found e)) [
          | inl absent ↦ there (finds.missing id w e g absent)
          | inr other ↦ cc (rw (g, rescue, continue, other) at h)
        ]
        | inr ((a, b), g) ↦ finds.named id w a b there g (cc (rw (g, rescue, continue) at h))
      ]

  apply_resolved_kept :
      (name : NamespacedName) (spec : SecretPushSpec) (status : SecretPushStatus) (w : W)
      → spec.update_policy ≡ if_not_exists
      → stored w spec.secret_name ≢ none
      → stored
          (body (apply_resolved marshal region checkers client name spec status) w).1
          spec.secret_name
        ≡ stored w spec.secret_name
  unfolding apply_resolved push
  apply_resolved_kept name spec status w policy there =
      let id = spec.secret_name in
      let w₁ = (build_secret_data client spec.fields w).1 in
      let built : stored w₁ id ≡ stored w id =
        (build_secret_data-Keeping client stored stores id spec.fields).run w in
      let looked : stored (find_secret client id w₁).1 id ≡ stored w₁ id =
        (find_secret-Keeping client stored stores id id).run w₁ in
      let skipped : (spec.update_policy == if_not_exists) ≡ true =
        (eq_iff spec.update_policy if_not_exists).1 policy in
      elim (Result-cases (build_secret_data client spec.fields w).0) [
        | inl (e, h) ↦ rw (h, rescue, continue) built
        | inr (d, h) ↦ elim (Result-cases (find_secret client id w₁).0) [
          | inl (e, g) ↦ rw (h, rescue, continue) (rw (g, rescue, continue) (looked ∙ built))
          | inr ((arn, found_name), g) ↦
              let old : (arn == "") ≡ false = ground (
                arith,
                find_secret_named id arn found_name w₁ (λ z. there (sym built ∙ z)) g,
                eq_iff arn "",
              ) in
              rw (h, rescue, continue)
                (rw (g, rescue, continue) (rw (old, skipped) (looked ∙ built)))
        ]
      ]

  -- The policy is not to update, as it is by default.
  abbrev pub IsNotUpdated : SecretPushSpec → Type 0
  IsNotUpdated spec = (spec.update_policy ≡ "") ⊎ (spec.update_policy ≡ if_not_exists)

  pub apply_action_kept :
      (name : NamespacedName) (spec : SecretPushSpec) (status : SecretPushStatus) (w : W)
      → IsNotUpdated spec
      → stored w spec.secret_name ≢ none
      → stored (apply_action marshal region checkers client name spec status w).1 spec.secret_name
        ≡ stored w spec.secret_name
  unfolding apply_action
  apply_action_kept name spec status w policy there = elim (Result-cases (resolve_spec spec)) [
    | inl (e, h) ↦ rw (h, apply_validated) refl
    | inr (resolved, h) ↦
        let (v, e) = (resolve_spec-IsValid spec resolved).0 h in
        let kept : resolved.update_policy ≡ if_not_exists =
          rw e (ground (arith, policy, eq_iff spec.update_policy "")) in
        rw (h, apply_validated)
          (rw (ap (λ c. c.secret_name) (sym e))
            (apply_resolved_kept name resolved status w kept (rw e there)))
  ]

  -- The policy is to keep the secret when the component is deleted.
  pub delete_action_retained :
      (spec : SecretPushSpec) (status : SecretPushStatus) (w : W)
      → spec.deletion_policy ≡ retain
      → (delete_action marshal region checkers client spec status w).1 ≡ w
  delete_action_retained spec status w policy =
      (delete_action_kept marshal region checkers client spec status w (inr policy)).1
