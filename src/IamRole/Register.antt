-- ===== src/IamRole/Register.antt =====
-- iamrole/register.go: what the role provider hands to componentkit.
use componator_aws_providers.Prelude.{String, none, some, List}
use componator_aws_providers.Go.{GoError}
use componator_aws_providers.Go.Flow.{Proc, ◌>>=◌}
use componator_aws_providers.Aws.{Checker}
use componator_aws_providers.Json.{Json}
use componator_aws_providers.Lifecycle.{Provider}
use componator_aws_providers.Registration.{Platform, registered_name, load_config}
use componator_aws_providers.IamRole.Config.{IamRoleConfig, IamRoleStatus}
use componator_aws_providers.IamRole.Client.{IamRoleClient}
use componator_aws_providers.IamRole.Operations.{
  apply_action, check_applied, delete_action, check_deleted,
}

-- `DefaultProviderName`
abbrev pub default_provider_name : String
default_provider_name = "iam-role"

module _ {W : Type 0} (json : Json) (checkers : List Checker) where
  -- The builder's calls, for a client and a name.
  abbrev pub provider : IamRoleClient W → String → Provider W IamRoleConfig IamRoleStatus
  provider client provider_name = record {
    provider_name = provider_name;
    apply = λ name. apply_action json checkers client;
    apply_check = some (λ name. check_applied json checkers client);
    delete = λ name. delete_action json checkers client;
    delete_check = some (λ name. check_deleted json checkers client);
    health_check = none;
    health_check_interval = none;
    error_requeue = none;
    default_requeue = none;
    status_check_requeue = none;
  }

  -- `Register`; `new_from_config` is `iam.NewFromConfig`, and `build` the builder's `Register(mgr)`.
  -- The client that the package keeps is the one made here.
  unfoldable pub register :
      {Config : Type 0}
      → Platform W Config
      → (Config → IamRoleClient W)
      → (Provider W IamRoleConfig IamRoleStatus → Proc W GoError (Unit {0}))
      → String
      → Proc W GoError (Unit {0})
  unfolding load_config registered_name
  register platform new_from_config build provider_name = do
    config ← load_config platform
    build (provider (new_from_config config) (registered_name default_provider_name provider_name))
