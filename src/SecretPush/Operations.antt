-- ===== src/SecretPush/Operations.antt =====
-- secretpush/operations.go: the two handlers of the secret push provider.
pub mod Policies
pub mod Stored
pub mod Unchanged
pub mod Again
use componator_aws_providers.Prelude.{
  ℕ, ◌+◌, String, Option, none, some, List, [], ◌∷◌, length, ◌==◌, if◌then◌else◌,
}
use componator_aws_providers.Prelude.Int.{pos}
use componator_aws_providers.Go.{GoError, Message, text, text_err, str, int}
use componator_aws_providers.Go.Flow.{Result, ok, err, Proc, pure, ◌>>=◌, ◌>>◌, ◌or_return◌, body}
use componator_aws_providers.Aws.{Checker, is_retryable}
use componator_aws_providers.Toolkit.{
  NamespacedName, ActionResult, action_success, action_failure, action_result_for_error,
}
use componator_aws_providers.SecretPush.Config.{
  if_not_exists, retain, SecretPushSpec, SecretPushStatus, resolve_spec,
}
use componator_aws_providers.SecretPush.Client.{SecretsClient}
use componator_aws_providers.SecretPush.Calls.{
  Marshal, find_secret, create_secret, update_secret, delete_secret,
}
use componator_aws_providers.SecretPush.Build.{SecretData, build_secret_data, build_secret_tags}

abbrev counted_details : String → SecretPushSpec → SecretData → Message
counted_details f spec d = text f (
    str spec.secret_name
    ∷ int (pos (d.generated_count + d.static_count))
    ∷ int (pos d.generated_count)
    ∷ int (pos d.static_count)
    ∷ [])

-- The parameters: `json.Marshal`, the region of the AWS configuration, the retry checkers of the
-- SDK, and the Secrets Manager client.
module _ {W : Type 0} (marshal : Marshal) (region : String) (checkers : List Checker)
    (client : SecretsClient W) where
  -- `functional.ActionResultForError(status, err, awsErrorClassifier)`
  abbrev pub failed : SecretPushStatus → GoError → ActionResult SecretPushStatus
  failed status e = action_result_for_error status e (is_retryable checkers)

  -- The end of `applyAction`: the new status.
  abbrev pub pushed : SecretPushSpec → SecretPushStatus → String → String → SecretPushStatus
  pushed spec status arn version = record status {
    secret_arn = arn;
    secret_name = spec.secret_name;
    version_id = version;
    region = region;
    field_count = length spec.fields;
  }

  -- The three branches of `applyAction`, for the ARN that was found.
  unfoldable pub push :
      NamespacedName
      → SecretPushSpec
      → SecretPushStatus
      → SecretData
      → String
      → Proc W (ActionResult SecretPushStatus) (ActionResult SecretPushStatus)
  push name spec status d existing_arn =
      if existing_arn == ""
      then (do
        (arn, version) ←
            create_secret client marshal spec.secret_name d.entries (build_secret_tags name)
              spec.kms_key_id
            or_return failed status
        pure (
            action_success (pushed spec status arn version) (
              counted_details "Created secret %s with %d fields (%d generated, %d static)" spec d)))
      else if spec.update_policy == if_not_exists
      then pure (
          action_success (pushed spec status existing_arn "") (
            text "Secret %s exists, update skipped (IfNotExists policy)"
              (str spec.secret_name ∷ [])))
      else do
        (arn, version) ←
            update_secret client marshal spec.secret_name d.entries or_return failed status
        pure (
            action_success (pushed spec status arn version)
              (counted_details "Updated secret %s with %d fields (%d generated, %d static)" spec d))

  -- `applyAction` from the validated configuration on.
  unfoldable pub apply_resolved :
      NamespacedName
      → SecretPushSpec
      → SecretPushStatus
      → Proc W (ActionResult SecretPushStatus) (ActionResult SecretPushStatus)
  unfolding push
  apply_resolved name spec status = do
    secret_data ← build_secret_data client spec.fields or_return failed status
    (existing_arn, existing_name) ← find_secret client spec.secret_name or_return failed status
    push name spec status secret_data existing_arn

  abbrev apply_validated :
      NamespacedName
      → SecretPushStatus
      → Result GoError SecretPushSpec
      → W
      → ActionResult SecretPushStatus × W
  apply_validated name status (err e) w =
      (action_failure status (text_err "config validation failed: %v" e), w)
  apply_validated name status (ok spec) w = body (apply_resolved name spec status) w

  -- `applyAction`
  unfoldable pub apply_action :
      NamespacedName → SecretPushSpec → SecretPushStatus → W → ActionResult SecretPushStatus × W
  unfolding apply_resolved
  apply_action name spec status w = apply_validated name status (resolve_spec spec) w

  -- `deleteAction`
  unfoldable pub delete_action :
      SecretPushSpec → SecretPushStatus → W → ActionResult SecretPushStatus × W
  delete_action spec status w =
      if status.secret_arn == ""
      then (action_success status (text "No secret to delete" []), w)
      else if spec.deletion_policy == retain
      then (
        action_success status
            (text "Secret %s retained (Retain policy)" (str spec.secret_name ∷ [])),
        w,
      )
      else body
          (do
            delete_secret client status.secret_arn or_return failed status
            pure (action_success status (text "Deleted secret %s" (str spec.secret_name ∷ []))))
          w
