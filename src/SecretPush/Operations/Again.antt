-- ===== src/SecretPush/Operations/Again.antt =====
-- secretpush/operations.go: `applyAction` once more after a success, where the policy is not to
-- update.
use componator_aws_providers.Prelude.{String, ◌≡◌, Option, List}
use componator_aws_providers.Aws.{Checker}
use componator_aws_providers.Toolkit.{
  ActionResult, action_success, action_failure, action_result_for_error,
}
use componator_aws_providers.SecretPush.Config.{SecretPushStatus}
use componator_aws_providers.SecretPush.Client.{SecretsClient}
use componator_aws_providers.SecretPush.Calls.{Marshal}
use componator_aws_providers.SecretPush.Storage.{StoresSecrets, FindsSecrets}
use componator_aws_providers.SecretPush.Operations.Stored.{Stored}

module _ {W : Type 0} (marshal : Marshal) (region : String) (checkers : List Checker)
    (client : SecretsClient W) (stored : W → String → Option String)
    (stores : StoresSecrets client stored) (finds : FindsSecrets client stored) where
  -- The status of a success has no version.
  abbrev HasNoVersion : ActionResult SecretPushStatus × W → Type 0
  HasNoVersion (action_success s m, w) = s.version_id ≡ ""
  HasNoVersion (action_failure s m, w) = Unit
  HasNoVersion (action_result_for_error s e c, w) = Unit
