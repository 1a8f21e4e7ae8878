-- ===== src/Samples/Names.antt =====
-- The theorems on the manager and the names of the providers, at libraries whose world is the list of
-- the registered names.
use componator_aws_providers.Prelude.{String, ◌≡◌, refl, List, [], ◌∷◌, ◌++◌}
use componator_aws_providers.Prelude.Texts.{IsNodup}
use componator_aws_providers.Go.{GoError, errorf}
use componator_aws_providers.Go.Flow.{Proc, ok, err}
use componator_aws_providers.IamPolicy.Client.{IamPolicyClient}
use componator_aws_providers.Rds.Client.{RdsClient}
use componator_aws_providers.SecretPush.Client.{SecretsClient}
use componator_aws_providers.Registration.{load_config}
use componator_aws_providers.IamPolicy.Register as IamPolicy
use componator_aws_providers.IamRole.Register as IamRole
use componator_aws_providers.SecretPush.Register as SecretPush
use componator_aws_providers.Rds.Register as Rds
use componator_aws_providers.Manager.{
  Flags, default_flags, provider_names, manager_options, Libraries, setup,
}
use componator_aws_providers.Manager.Registered.{RegistersNames, setup-Registered}
use componator_aws_providers.Samples.Role

abbrev Registry : Type 0
Registry = List String

-- A call that the registration does not make.
abbrev refuse : {A : Type 0} → Proc Registry GoError A
refuse w = (err (errorf "refused" []), w)

abbrev done : Proc Registry GoError (Unit {0})
done w = (ok tt, w)

abbrev add : String → Proc Registry GoError (Unit {0})
add name w = (ok tt, w ++ (name ∷ []))

abbrev policies : IamPolicyClient Registry
policies = record {
  list_policies = λ p. refuse;
  get_policy = λ arn. refuse;
  create_policy = λ c. refuse;
  create_policy_version = λ c. refuse;
  list_policy_versions = λ arn. refuse;
  get_policy_version = λ arn v. refuse;
  delete_policy_version = λ arn v. refuse;
  delete_policy = λ arn. refuse;
}

abbrev secrets : SecretsClient Registry
secrets = record {
  describe_secret = λ id. refuse;
  create_secret = λ c. refuse;
  update_secret = λ id value. refuse;
  delete_secret = λ id force. refuse;
  get_random_password = λ g. refuse;
}

abbrev instances : RdsClient Registry
instances = record {
  describe_db_instances = λ id. refuse;
  create_db_instance = λ c. refuse;
  modify_db_instance = λ c. refuse;
  delete_db_instance = λ c. refuse;
}

abbrev libraries : Libraries Registry (Unit {0}) (Unit {0})
libraries = record {
  new_manager = λ options w. (ok tt, w);
  platform = λ mgr. record {
    add_client_go_to_scheme = done;
    add_component_to_scheme = done;
    load_default_config = done;
  };
  region = λ c. "eu";
  new_iam_policy_client = λ c. policies;
  new_iam_role_client = λ c. Role.service;
  new_secrets_client = λ c. secrets;
  new_rds_client = λ c. instances;
  build_iam_policy = λ mgr p. add p.provider_name;
  build_iam_role = λ mgr p. add p.provider_name;
  build_secret_push = λ mgr p. add p.provider_name;
  build_rds = λ mgr p. add p.provider_name;
  add_healthz_check = λ mgr path. done;
  add_readyz_check = λ mgr path. done;
  start = λ mgr. done;
  json = Role.json;
  marshal = λ entries. ok "{}";
  checkers = [];
}

libraries-RegistersNames : RegistersNames (λ w. w) libraries
libraries-RegistersNames = record {
  new_manager = λ flags w. refl;
  platform = λ mgr. record { client_go = λ w. refl; component = λ w. refl; config = λ w. refl };
  iam_policy = λ mgr p w a h. refl;
  iam_role = λ mgr p w a h. refl;
  secret_push = λ mgr p w a h. refl;
  rds = λ mgr p w a h. refl;
  healthz = λ mgr path w. refl;
  readyz = λ mgr path w. refl;
}

abbrev team : Flags
team = record default_flags { provider_prefix = "team-a" }

setup-Registered_example :
    ((setup libraries team []).1 ≡ provider_names "team-a") × IsNodup (setup libraries team []).1
unfolding setup IamPolicy.register IamRole.register SecretPush.register Rds.register load_config
    manager_options
setup-Registered_example =
    setup-Registered (λ w. w) libraries libraries-RegistersNames team [] tt refl refl
