-- ===== src/Manager.antt =====
-- cmd/main.go: the flags, the options of the manager, and the registration of the four providers.
-- controller-runtime and the clients of the AWS SDK are parameters. The parsing of the command line
-- and the logger are left out: `main` begins with the values of the flags.
pub mod Names
pub mod Registered
use Prim.Native.String.{◌++◌ as ◌<>◌}
use componator_aws_providers.Prelude.{
  String, Bool, true, false, not, Option, none, some, List, [], ◌∷◌, ◌==◌, if◌then◌else◌,
}
use componator_aws_providers.Go.{GoError}
use componator_aws_providers.Go.Flow.{Proc, pure, ◌>>=◌, ◌>>◌, ◌or_return◌}
use componator_aws_providers.Aws.{Checker}
use componator_aws_providers.Json.{Json}
use componator_aws_providers.Lifecycle.{Provider}
use componator_aws_providers.Registration.{Platform, registered_name}
use componator_aws_providers.IamPolicy.Config.{IamPolicyConfig, IamPolicyStatus}
use componator_aws_providers.IamPolicy.Client.{IamPolicyClient}
use componator_aws_providers.IamPolicy.Register as IamPolicy
use componator_aws_providers.IamRole.Config.{IamRoleConfig, IamRoleStatus}
use componator_aws_providers.IamRole.Client.{IamRoleClient}
use componator_aws_providers.IamRole.Register as IamRole
use componator_aws_providers.SecretPush.Config.{SecretPushSpec, SecretPushStatus}
use componator_aws_providers.SecretPush.Calls.{Marshal}
use componator_aws_providers.SecretPush.Client.{SecretsClient}
use componator_aws_providers.SecretPush.Register as SecretPush
use componator_aws_providers.Rds.Config.{RdsConfig, RdsStatus}
use componator_aws_providers.Rds.Client.{RdsClient}
use componator_aws_providers.Rds.Register as Rds

-- The variables that `main` binds to flags.
pub record Flags : Type 0 where
  pub metrics_addr : String
  pub probe_addr : String
  pub enable_leader_election : Bool
  pub secure_metrics : Bool
  pub metrics_cert_path : String
  pub metrics_cert_name : String
  pub metrics_cert_key : String
  pub enable_http2 : Bool
  pub provider_prefix : String

-- The defaults of the flags.
abbrev pub default_flags : Flags
default_flags = record {
  metrics_addr = "0";
  probe_addr = ":8081";
  enable_leader_election = false;
  secure_metrics = true;
  metrics_cert_path = "";
  metrics_cert_name = "tls.crt";
  metrics_cert_key = "tls.key";
  enable_http2 = false;
  provider_prefix = "";
}

-- `tls.Config`, the field that the code sets.
pub record TlsConfig : Type 0 where
  pub next_protos : List String

-- `disableHTTP2`
abbrev pub disable_http2 : TlsConfig → TlsConfig
disable_http2 c = record c { next_protos = "http/1.1" ∷ [] }

-- `filters.WithAuthenticationAndAuthorization`, the only filter that the code sets.
pub data Filter : Type 0 where
  with_authentication_and_authorization : Filter

-- `metricsserver.Options`, the fields that the code sets; `none` is a nil provider.
pub record MetricsOptions : Type 0 where
  pub bind_address : String
  pub secure_serving : Bool
  pub tls_opts : List (TlsConfig → TlsConfig)
  pub filter_provider : Option Filter
  pub cert_dir : String
  pub cert_name : String
  pub key_name : String

-- `metricsServerOptions`
unfoldable pub metrics_server_options : Flags → MetricsOptions
metrics_server_options flags =
    let certified = not (flags.metrics_cert_path == "") in
    record {
      bind_address = flags.metrics_addr;
      secure_serving = flags.secure_metrics;
      tls_opts = if flags.enable_http2 then [] else disable_http2 ∷ [];
      filter_provider =
          if flags.secure_metrics then some Filter.with_authentication_and_authorization else none;
      cert_dir = if certified then flags.metrics_cert_path else "";
      cert_name = if certified then flags.metrics_cert_name else "";
      key_name = if certified then flags.metrics_cert_key else "";
    }

-- `ctrl.Options`, the fields that the code sets beside the scheme.
pub record ManagerOptions : Type 0 where
  pub metrics : MetricsOptions
  pub health_probe_bind_address : String
  pub leader_election : Bool
  pub leader_election_id : String

unfoldable pub manager_options : Flags → ManagerOptions
unfolding metrics_server_options
manager_options flags = record {
  metrics = metrics_server_options flags;
  health_probe_bind_address = flags.probe_addr;
  leader_election = flags.enable_leader_election;
  leader_election_id = "0d76f43e.componator-aws-providers.io";
}

-- `buildProviderName`
unfoldable pub build_provider_name : String → String → String
build_provider_name prefix base = if prefix == "" then "" else (prefix <> "-") <> base

-- The names under which `main` registers the four providers, in its order.
unfoldable pub provider_names : String → List String
unfolding build_provider_name registered_name
provider_names prefix =
    registered_name IamPolicy.default_provider_name (build_provider_name prefix "iam-policy")
    ∷ registered_name IamRole.default_provider_name (build_provider_name prefix "iam-role")
    ∷ registered_name SecretPush.default_provider_name (build_provider_name prefix "secret-push")
    ∷ registered_name Rds.default_provider_name (build_provider_name prefix "rds")
    ∷ []

-- What `main` and the `Register` functions call, for a manager of type `M` and an AWS configuration.
pub record Libraries (W M Config : Type 0) : Type 1 where
  pub new_manager : ManagerOptions → Proc W GoError M
  pub platform : M → Platform W Config
  pub region : Config → String
  pub new_iam_policy_client : Config → IamPolicyClient W
  pub new_iam_role_client : Config → IamRoleClient W
  pub new_secrets_client : Config → SecretsClient W
  pub new_rds_client : Config → RdsClient W
  pub build_iam_policy : M → Provider W IamPolicyConfig IamPolicyStatus → Proc W GoError (Unit {0})
  pub build_iam_role : M → Provider W IamRoleConfig IamRoleStatus → Proc W GoError (Unit {0})
  pub build_secret_push : M → Provider W SecretPushSpec SecretPushStatus → Proc W GoError (Unit {0})
  pub build_rds : M → Provider W RdsConfig RdsStatus → Proc W GoError (Unit {0})
  pub add_healthz_check : M → String → Proc W GoError (Unit {0})
  pub add_readyz_check : M → String → Proc W GoError (Unit {0})
  pub start : M → Proc W GoError (Unit {0})
  pub json : Json
  pub marshal : Marshal
  pub checkers : List Checker

-- `setupLog.Error(err, message)` and `os.Exit(1)`
pub record Exit : Type 0 where
  pub message : String
  pub error : GoError

abbrev pub exit : String → GoError → Exit
exit message e = record { message = message; error = e }

module _ {W M Config : Type 0} (lib : Libraries W M Config) where
  -- `main` up to the start of the manager.
  unfoldable pub setup : Flags → Proc W Exit M
  unfolding manager_options build_provider_name
  setup flags = do
    mgr ← lib.new_manager (manager_options flags) or_return exit "unable to start manager"
    IamPolicy.register lib.json lib.checkers (lib.platform mgr) lib.new_iam_policy_client
          (lib.build_iam_policy mgr) (build_provider_name flags.provider_prefix "iam-policy")
        or_return exit "unable to register iam-policy controller"
    IamRole.register lib.json lib.checkers (lib.platform mgr) lib.new_iam_role_client
          (lib.build_iam_role mgr) (build_provider_name flags.provider_prefix "iam-role")
        or_return exit "unable to register iam-role controller"
    SecretPush.register lib.marshal lib.checkers (lib.platform mgr) lib.region
          lib.new_secrets_client (lib.build_secret_push mgr)
          (build_provider_name flags.provider_prefix "secret-push")
        or_return exit "unable to register secret-push controller"
    Rds.register lib.checkers (lib.platform mgr) lib.new_rds_client (lib.build_rds mgr)
          (build_provider_name flags.provider_prefix "rds")
        or_return exit "unable to register rds controller"
    lib.add_healthz_check mgr "healthz" or_return exit "unable to set up health check"
    lib.add_readyz_check mgr "readyz" or_return exit "unable to set up ready check"
    pure mgr

  -- `main`
  unfoldable pub main : Flags → Proc W Exit (Unit {0})
  main flags = do mgr ← setup flags; lib.start mgr or_return exit "problem running manager"
