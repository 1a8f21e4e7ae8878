-- ===== src/Manager/Registered.antt =====
-- Which providers are registered when the manager starts.
use componator_aws_providers.Prelude.{
  String, ◌≡◌, refl, sym, ap, ◌∙◌, inl, inr, List, [], ◌∷◌, ◌++◌,
}
use mathlib.Core.List.{append_assoc, append-nil}
use componator_aws_providers.Prelude.Texts.{IsNodup}
use componator_aws_providers.Go.{GoError}
use componator_aws_providers.Go.Flow.{
  ok, continue, Proc, pure, ◌>>=◌, ◌or_return◌, Result-cases, or_return-ok,
}
use componator_aws_providers.Go.Along.{Preorder, >>=-Along, or_return-Along}
use componator_aws_providers.Lifecycle.{Provider}
use componator_aws_providers.IamPolicy.Config.{IamPolicyConfig, IamPolicyStatus}
use componator_aws_providers.IamRole.Config.{IamRoleConfig, IamRoleStatus}
use componator_aws_providers.SecretPush.Config.{SecretPushSpec, SecretPushStatus}
use componator_aws_providers.Rds.Config.{RdsConfig, RdsStatus}
use componator_aws_providers.Registration.{Platform, registered_name, load_config}
use componator_aws_providers.IamPolicy.Register as IamPolicy
use componator_aws_providers.IamRole.Register as IamRole
use componator_aws_providers.SecretPush.Register as SecretPush
use componator_aws_providers.Rds.Register as Rds
use componator_aws_providers.Manager.{
  Flags, manager_options, provider_names, Libraries, exit, setup,
}
use componator_aws_providers.Manager.Names.{provider_names-IsNodup}

module _ {W : Type 0} (registered : W → List String) where
  -- A call leaves the registered names as they are, whatever its result.
  abbrev pub Keeps : {E A : Type 0} → Proc W E A → Type 0
  Keeps m = (w : W) → registered (m w).1 ≡ registered w

  -- A call that succeeds adds a name at the end.
  abbrev pub Adds : {E A : Type 0} → String → Proc W E A → Type 0
  Adds {A = A} name m =
      (w : W) (a : A) → (m w).0 ≡ ok a → registered (m w).1 ≡ registered w ++ (name ∷ [])

  pub record KeepsPlatform {Config : Type 0} (platform : Platform W Config) : Type 0 where
    pub client_go : Keeps platform.add_client_go_to_scheme
    pub component : Keeps platform.add_component_to_scheme
    pub config : Keeps platform.load_default_config

  -- What `main` relies on of the libraries: only the builders' `Register` registers a name, and it is
  -- the name that the builder was given.
  pub record RegistersNames {M Config : Type 0} (lib : Libraries W M Config) : Type 0 where
    pub new_manager : (flags : Flags) → Keeps (lib.new_manager (manager_options flags))
    pub platform : (mgr : M) → KeepsPlatform (lib.platform mgr)
    pub iam_policy :
        (mgr : M) (p : Provider W IamPolicyConfig IamPolicyStatus)
        → Adds p.provider_name (lib.build_iam_policy mgr p)
    pub iam_role :
        (mgr : M) (p : Provider W IamRoleConfig IamRoleStatus)
        → Adds p.provider_name (lib.build_iam_role mgr p)
    pub secret_push :
        (mgr : M) (p : Provider W SecretPushSpec SecretPushStatus)
        → Adds p.provider_name (lib.build_secret_push mgr p)
    pub rds :
        (mgr : M) (p : Provider W RdsConfig RdsStatus) → Adds p.provider_name (lib.build_rds mgr p)
    pub healthz : (mgr : M) (path : String) → Keeps (lib.add_healthz_check mgr path)
    pub readyz : (mgr : M) (path : String) → Keeps (lib.add_readyz_check mgr path)

  abbrev same_names : Preorder λ w w'. registered w' ≡ registered w
  same_names = record { same = λ w. refl; trans = λ u v w first second. second ∙ first }

  load_config-Keeps :
      {Config : Type 0} (platform : Platform W Config)
      → KeepsPlatform platform
      → Keeps (load_config platform)
  unfolding load_config
  load_config-Keeps platform keeps =
      (>>=-Along same_names platform.add_client_go_to_scheme _ (record { run = keeps.client_go })
        λ u.
          >>=-Along same_names platform.add_component_to_scheme _ (record { run = keeps.component })
            λ v.
              or_return-Along same_names platform.load_default_config _
                (record { run = keeps.config })).run

  -- `Register`: the AWS configuration, then the builder.
  after_config-Adds :
      {Config : Type 0} (platform : Platform W Config) (name : String)
      (build : Config → Proc W GoError (Unit {0}))
      → KeepsPlatform platform
      → ((c : Config) → Adds name (build c))
      → Adds name (load_config platform >>= build)
  after_config-Adds platform name build keeps adds w a h =
      elim (Result-cases (load_config platform w).0) [
        | inl (e, g) ↦ cc (rw (g, continue) at h)
        | inr (c, g) ↦
            rw (g, continue)
              (adds c (load_config platform w).1 a (rw (g, continue) at h)
                ∙ ap (λ names. names ++ (name ∷ [])) (load_config-Keeps platform keeps w))
      ]

  module _ {M Config : Type 0} (lib : Libraries W M Config) (names : RegistersNames lib) (mgr : M)
      (base : String) where
    iam_policy-Adds : Adds (registered_name IamPolicy.default_provider_name base) (
        IamPolicy.register lib.json lib.checkers
          (lib.platform mgr)
          lib.new_iam_policy_client
          (lib.build_iam_policy mgr)
          base)
    unfolding IamPolicy.register
    iam_policy-Adds =
        after_config-Adds (lib.platform mgr) _ _ (names.platform mgr) (λ c. names.iam_policy mgr _)

    iam_role-Adds : Adds (registered_name IamRole.default_provider_name base) (
        IamRole.register lib.json lib.checkers
          (lib.platform mgr)
          lib.new_iam_role_client
          (lib.build_iam_role mgr)
          base)
    unfolding IamRole.register
    iam_role-Adds =
        after_config-Adds (lib.platform mgr) _ _ (names.platform mgr) (λ c. names.iam_role mgr _)

    secret_push-Adds : Adds (registered_name SecretPush.default_provider_name base) (
        SecretPush.register lib.marshal lib.checkers
          (lib.platform mgr)
          lib.region
          lib.new_secrets_client
          (lib.build_secret_push mgr)
          base)
    unfolding SecretPush.register
    secret_push-Adds =
        after_config-Adds (lib.platform mgr) _ _ (names.platform mgr) (λ c. names.secret_push mgr _)

    rds-Adds :
        Adds
          (registered_name Rds.default_provider_name base)
          (Rds.register lib.checkers (lib.platform mgr) lib.new_rds_client (lib.build_rds mgr) base)
    unfolding Rds.register
    rds-Adds = after_config-Adds (lib.platform mgr) _ _ (names.platform mgr) (λ c. names.rds mgr _)

  -- A run that succeeds adds the names at the end, in this order.
  record AddsAll {E A : Type 0} (names : List String) (m : Proc W E A) : Type 0 where
    added : (w : W) (a : A) → (m w).0 ≡ ok a → registered (m w).1 ≡ registered w ++ names

  AddsAll-pure : {E A : Type 0} (a : A) → AddsAll [] (pure {W = W} {E = E} a)
  AddsAll-pure a = record { added = λ w b h. sym (append-nil (registered w)) }

  AddsAll-cons :
      {E F A B : Type 0} {name : String} {names : List String} (m : Proc W E A) (f : E → F)
      (k : A → Proc W F B)
      → Adds name m
      → ((a : A) → AddsAll names (k a))
      → AddsAll (name ∷ names) (m or_return f >>= k)
  AddsAll-cons {name = name} {names = names} m f k first rest = record {
    added = λ w b h.
        let (a, e, run) = or_return-ok m f k w h in
        rw run (
          (rest a).added (m w).1 b (rw run at h)
          ∙ ap (λ before. before ++ names) (first w a e)
          ∙ append_assoc (registered w) (name ∷ []) names);
  }

  AddsAll-skip :
      {E F A B : Type 0} {names : List String} (m : Proc W E A) (f : E → F) (k : A → Proc W F B)
      → Keeps m
      → ((a : A) → AddsAll names (k a))
      → AddsAll names (m or_return f >>= k)
  AddsAll-skip {names = names} m f k first rest = record {
    added = λ w b h.
        let (a, e, run) = or_return-ok m f k w h in
        rw run ((rest a).added (m w).1 b (rw run at h) ∙ ap (λ before. before ++ names) (first w));
  }

  setup-AddsAll :
      {M Config : Type 0} (lib : Libraries W M Config)
      → RegistersNames lib
      → (flags : Flags) → AddsAll (provider_names flags.provider_prefix) (setup lib flags)
  unfolding setup provider_names
  setup-AddsAll lib names flags =
      AddsAll-skip (lib.new_manager (manager_options flags)) (exit "unable to start manager") _
        (names.new_manager flags)
        λ mgr. AddsAll-cons _ _ _ (iam_policy-Adds lib names mgr _) λ _.
          AddsAll-cons _ _ _ (iam_role-Adds lib names mgr _) λ _.
            AddsAll-cons _ _ _ (secret_push-Adds lib names mgr _) λ _.
              AddsAll-cons _ _ _ (rds-Adds lib names mgr _) λ _.
                AddsAll-skip (lib.add_healthz_check mgr "healthz")
                  (exit "unable to set up health check") _ (names.healthz mgr "healthz")
                  λ _.
                    AddsAll-skip (lib.add_readyz_check mgr "readyz")
                      (exit "unable to set up ready check") _ (names.readyz mgr "readyz")
                      λ _. AddsAll-pure mgr

  -- If `main` comes to the start of the manager, and no name was registered before, then exactly the
  -- names of the four providers are registered, in this order and all different.
  pub setup-Registered :
      {M Config : Type 0} (lib : Libraries W M Config)
      → RegistersNames lib
      → (flags : Flags) (w : W) (mgr : M) → registered w ≡ []
      → (setup lib flags w).0 ≡ ok mgr
      → (registered (setup lib flags w).1 ≡ provider_names flags.provider_prefix)
        × IsNodup (registered (setup lib flags w).1)
  setup-Registered lib names flags w mgr none_yet done =
      let exact : registered (setup lib flags w).1 ≡ provider_names flags.provider_prefix =
        (setup-AddsAll lib names flags).added w mgr done ∙ rw none_yet in
      (exact, rw exact (provider_names-IsNodup flags.provider_prefix))
