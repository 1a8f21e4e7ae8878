-- ===== src/SecretPush/Operations/Policies.antt =====
-- secretpush/operations.go: the deletion policy.
use componator_aws_providers.Prelude.{
  String, ◌≡◌, refl, ◌≢◌, ◌⊎◌, inl, inr, Bool, true, false, List, [], ◌∷◌, ◌==◌, arith, eq_iff,
  Bool-cases,
}
use componator_aws_providers.Go.{GoError, text, str}
use componator_aws_providers.Go.Flow.{
  ok, err, pure, ◌>>◌, ◌or_return◌, body, rescue, continue, merge, Result-cases,
}
use componator_aws_providers.Aws.{Checker}
use componator_aws_providers.Toolkit.{
  ActionResult, action_success, action_failure, action_result_for_error, action_status,
}
use componator_aws_providers.SecretPush.Config.{retain, SecretPushSpec, SecretPushStatus}
use componator_aws_providers.SecretPush.Client.{SecretsClient}
use componator_aws_providers.SecretPush.Calls.{Marshal, is_resource_not_found, delete_secret}
use componator_aws_providers.SecretPush.Operations.{failed, delete_action}

module _ {W : Type 0} (marshal : Marshal) (region : String) (checkers : List Checker)
    (client : SecretsClient W) where
  -- Where the status has no secret, or the policy is to retain it, neither the status nor the world
  -- changes.
  pub delete_action_kept :
      (spec : SecretPushSpec) (status : SecretPushStatus) (w : W)
      → (status.secret_arn ≡ "") ⊎ (spec.deletion_policy ≡ retain)
      → let result = delete_action marshal region checkers client spec status w in
        (action_status result.0 ≡ status) × (result.1 ≡ w)
  unfolding delete_action
  delete_action_kept spec status w h =
      ground (arith, h, eq_iff status.secret_arn "", eq_iff spec.deletion_policy retain)

-- What the service does with a secret that is deleted without a time for recovery: a success, and an
-- error that says that it is not found, leave none of that ARN there.
pub record DeletesSecrets {W : Type 0} (client : SecretsClient W) (there : W → String → Bool)
    : Type 0 where
  pub deleted :
      (arn : String) (w : W)
      → (client.delete_secret arn true w).0 ≡ ok tt
      → there (client.delete_secret arn true w).1 arn ≡ false
  pub not_found :
      (arn : String) (w : W) (e : GoError)
      → (client.delete_secret arn true w).0 ≡ err e
      → is_resource_not_found e ≡ true
      → there (client.delete_secret arn true w).1 arn ≡ false

module _ {W : Type 0} (marshal : Marshal) (region : String) (checkers : List Checker)
    (client : SecretsClient W) (there : W → String → Bool) (deletes : DeletesSecrets client there)
    (spec : SecretPushSpec) (status : SecretPushStatus) (w : W) where
  -- There is a secret to delete.
  abbrev IsAsked : Type 0
  IsAsked = (status.secret_arn ≢ "") × (spec.deletion_policy ≢ retain)

  -- How a deletion ends.
  abbrev pub Deleted : ActionResult SecretPushStatus × W → Type 0
  Deleted (action_success s m, w') =
      (s ≡ status)
      × ((((status.secret_arn ≡ "") ⊎ (spec.deletion_policy ≡ retain)) × (w' ≡ w))
          ⊎ (IsAsked × (there w' status.secret_arn ≡ false)))
  Deleted (action_failure s m, w') = ⊥
  Deleted (action_result_for_error s e c, w') = (s ≡ status) × IsAsked

  sent-Deleted :
      IsAsked
      → Deleted (
          body
            (do
              delete_secret client status.secret_arn
                  or_return failed marshal region checkers client status
              pure (action_success status (text "Deleted secret %s" (str spec.secret_name ∷ []))))
            w)
  unfolding delete_secret
  sent-Deleted asked = elim (Result-cases (client.delete_secret status.secret_arn true w).0) [
    | inr (u, h) ↦
        rw (h, rescue, continue, merge) (refl, inr (asked, deletes.deleted status.secret_arn w h))
    | inl (e, h) ↦ elim (Bool-cases (is_resource_not_found e)) [
      | inl gone ↦
          rw (h, rescue)
            (rw (gone, continue, merge)
              (refl, inr (asked, deletes.not_found status.secret_arn w e h gone)))
      | inr other ↦ rw (h, rescue) (rw (other, continue, merge) (refl, asked))
    ]
  ]

  -- If the status has no secret or the policy is to retain it, `deleteAction` succeeds and the world
  -- is as before. Otherwise it asks the service for the deletion: its success means that no secret of
  -- the ARN is there any more, and any other result is an error. The status never changes.
  pub delete_action-Deleted : Deleted (delete_action marshal region checkers client spec status w)
  unfolding delete_action
  delete_action-Deleted = elim (Bool-cases (status.secret_arn == "")) [
    | inl none ↦ rw none (refl, inl (inl ((eq_iff status.secret_arn "").0 none), refl))
    | inr some ↦ elim (Bool-cases (spec.deletion_policy == retain)) [
      | inl kept ↦
          rw (some, kept) (refl, inl (inr ((eq_iff spec.deletion_policy retain).0 kept), refl))
      | inr sent ↦
          rw (some, sent)
            (sent-Deleted (
              λ e. ground (arith, some, (eq_iff status.secret_arn "").1 e),
              λ e. ground (arith, sent, (eq_iff spec.deletion_policy retain).1 e),
            ))
    ]
  ]
