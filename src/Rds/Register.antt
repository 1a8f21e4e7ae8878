-- ===== src/Rds/Register.antt =====
-- rds/register.go: what the RDS provider hands to componentkit.
use componator_aws_providers.Prelude.{String, some, List}
use componator_aws_providers.Go.{GoError}
use componator_aws_providers.Go.Flow.{Proc, ◌>>=◌}
use componator_aws_providers.Aws.{Checker}
use componator_aws_providers.Lifecycle.{Provider}
use componator_aws_providers.Registration.{Platform, registered_name, load_config}
use componator_aws_providers.Rds.Config.{RdsConfig, RdsStatus}
use componator_aws_providers.Rds.Client.{RdsClient}
use componator_aws_providers.Rds.Operations.{
  apply_action, check_applied, delete_action, check_deleted,
}
use componator_aws_providers.Rds.Health.{check_health}

-- `DefaultProviderName`
abbrev pub default_provider_name : String
default_provider_name = "rds"

module _ {W : Type 0} (checkers : List Checker) where
  -- The builder's calls, for a client and a name. The times are in seconds.
  abbrev pub provider : RdsClient W → String → Provider W RdsConfig RdsStatus
  provider client provider_name = record {
    provider_name = provider_name;
    apply = λ name. apply_action checkers client;
    apply_check = some (λ name. check_applied checkers client);
    delete = λ name. delete_action checkers client;
    delete_check = some (λ name. check_deleted checkers client);
    health_check = some (λ name spec status. check_health checkers client spec);
    health_check_interval = some 60;
    error_requeue = some 15;
    default_requeue = some 30;
    status_check_requeue = some 30;
  }

  -- `Register`; `new_from_config` is `rds.NewFromConfig`, and `build` the builder's `Register(mgr)`.
  -- The client that the package keeps is the one made here.
  unfoldable pub register :
      {Config : Type 0}
      → Platform W Config
      → (Config → RdsClient W)
      → (Provider W RdsConfig RdsStatus → Proc W GoError (Unit {0}))
      → String
      → Proc W GoError (Unit {0})
  unfolding load_config registered_name
  register platform new_from_config build provider_name = do
    config ← load_config platform
    build (provider (new_from_config config) (registered_name default_provider_name provider_name))
