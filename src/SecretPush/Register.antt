-- ===== src/SecretPush/Register.antt =====
-- secretpush/register.go: what the secret push provider hands to componentkit.
use componator_aws_providers.Prelude.{String, none, List}
use componator_aws_providers.Go.{GoError}
use componator_aws_providers.Go.Flow.{Proc, ◌>>=◌}
use componator_aws_providers.Aws.{Checker}
use componator_aws_providers.SecretPush.Calls.{Marshal}
use componator_aws_providers.Lifecycle.{Provider}
use componator_aws_providers.Registration.{Platform, registered_name, load_config}
use componator_aws_providers.SecretPush.Config.{SecretPushSpec, SecretPushStatus}
use componator_aws_providers.SecretPush.Client.{SecretsClient}
use componator_aws_providers.SecretPush.Operations.{apply_action, delete_action}

-- `DefaultProviderName`
abbrev pub default_provider_name : String
default_provider_name = "secret-push"

module _ {W : Type 0} (marshal : Marshal) (checkers : List Checker) where
  -- The builder's calls, for a region, a client and a name.
  abbrev pub provider :
      String → SecretsClient W → String → Provider W SecretPushSpec SecretPushStatus
  provider region client provider_name = record {
    provider_name = provider_name;
    apply = apply_action marshal region checkers client;
    apply_check = none;
    delete = λ name. delete_action marshal region checkers client;
    delete_check = none;
    health_check = none;
    health_check_interval = none;
    error_requeue = none;
    default_requeue = none;
    status_check_requeue = none;
  }

  -- `Register`; `new_from_config` is `secretsmanager.NewFromConfig`, `region` the field
  -- `Region` of the configuration, which the package keeps, and `build` the builder's `Register(mgr)`.
  -- The client that the package keeps is the one made here.
  unfoldable pub register :
      {Config : Type 0}
      → Platform W Config
      → (Config → String)
      → (Config → SecretsClient W)
      → (Provider W SecretPushSpec SecretPushStatus → Proc W GoError (Unit {0}))
      → String
      → Proc W GoError (Unit {0})
  unfolding load_config registered_name
  register platform region new_from_config build provider_name = do
    config ← load_config platform
    build (
        provider (region config) (new_from_config config)
          (registered_name default_provider_name provider_name))
