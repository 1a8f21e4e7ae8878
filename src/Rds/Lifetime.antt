-- ===== src/Rds/Lifetime.antt =====
-- An RDS instance over the calls of a controller.
use componator_aws_providers.Prelude.{String, ◌≢◌, List}
use componator_aws_providers.Aws.{Checker}
use componator_aws_providers.Toolkit.{NamespacedName}
use componator_aws_providers.Lifecycle.{Call, called, Reach, Reach_keeps}
use componator_aws_providers.Rds.Config.{RdsConfig, RdsStatus}
use componator_aws_providers.Rds.Client.{RdsClient}
use componator_aws_providers.Rds.Operations.Answers.{KeepsSecret, NamesSecrets}
use componator_aws_providers.Rds.Operations.Secret.{handlers-KeepsSecret}
use componator_aws_providers.Rds.Register.{provider}

module _ {W : Type 0} (checkers : List Checker) (client : RdsClient W) (names : NamesSecrets client)
    (provider_name : String) (name : NamespacedName) (spec : RdsConfig) where
  called-KeepsSecret :
      (k : Call) (x : RdsStatus × W)
      → KeepsSecret x.0 (called name spec (provider checkers client provider_name) k x).0
  called-KeepsSecret Call.apply (s, w) =
      let (applied, check, deleted, gone) = handlers-KeepsSecret checkers client names spec s w in
      applied
  called-KeepsSecret Call.apply_check (s, w) =
      let (applied, check, deleted, gone) = handlers-KeepsSecret checkers client names spec s w in
      check
  called-KeepsSecret Call.delete (s, w) =
      let (applied, check, deleted, gone) = handlers-KeepsSecret checkers client names spec s w in
      deleted
  called-KeepsSecret Call.delete_check (s, w) =
      let (applied, check, deleted, gone) = handlers-KeepsSecret checkers client names spec s w in
      gone
  called-KeepsSecret Call.health_check (s, w) = λ n. n

  -- Once the status names the managed password's secret, it names one after any calls of the
  -- handlers, in any order, with their statuses stored or lost, whatever the calls answer and
  -- whatever others do to the service in between. The service is assumed not to name a secret by
  -- the empty text.
  pub Reach-KeepsSecret :
      (others : W → W → Type 0) (allowed : Call → Type 0) (x y : RdsStatus × W)
      → Reach (provider checkers client provider_name) name spec others allowed x y
      → KeepsSecret x.0 y.0
  Reach-KeepsSecret others allowed x y r n =
      Reach_keeps _ name spec others allowed (λ z. z.0.master_user_secret_arn ≢ "")
        (λ k a z m. (called-KeepsSecret k z m, m)) (λ s w w' o m. m) r n
