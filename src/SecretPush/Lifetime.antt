-- ===== src/SecretPush/Lifetime.antt =====
-- A secret over the calls of a controller.
use componator_aws_providers.Prelude.{
  String, ◌≡◌, ◌≢◌, refl, ◌∙◌, ap, ◌⊎◌, inl, inr, Option, none, some, false, List,
}
use componator_aws_providers.Aws.{Checker}
use componator_aws_providers.Toolkit.{NamespacedName}
use componator_aws_providers.Lifecycle.{Call, is_delete, called, Reach, Reach_keeps}
use componator_aws_providers.SecretPush.Config.{retain, SecretPushSpec, SecretPushStatus}
use componator_aws_providers.SecretPush.Client.{SecretsClient}
use componator_aws_providers.SecretPush.Calls.{Marshal}
use componator_aws_providers.SecretPush.Storage.{StoresSecrets, FindsSecrets}
use componator_aws_providers.SecretPush.Operations.Unchanged.{
  IsNotUpdated, apply_action_kept, delete_action_retained,
}
use componator_aws_providers.SecretPush.Register.{provider}

module _ {W : Type 0} (marshal : Marshal) (region : String) (checkers : List Checker)
    (client : SecretsClient W) (stored : W → String → Option String)
    (stores : StoresSecrets client stored) (finds : FindsSecrets client stored)
    (provider_name : String) (name : NamespacedName) (spec : SecretPushSpec) where
  -- The calls that are made: all of them if the secret is to be retained, or else all but the
  -- deletion.
  abbrev pub Spares : Call → Type 0
  Spares k = (is_delete k ≡ false) ⊎ (spec.deletion_policy ≡ retain)

  called_keeps :
      IsNotUpdated marshal region checkers client stored stores finds spec
      → (k : Call) → Spares k
      → (s : SecretPushStatus) (w : W) → stored w spec.secret_name ≢ none
      → stored
          (called name spec (provider marshal checkers region client provider_name) k (s, w)).1
          spec.secret_name
        ≡ stored w spec.secret_name
  called_keeps policy Call.apply a s w there =
      apply_action_kept marshal region checkers client stored stores finds name spec s w policy
        there
  called_keeps policy Call.apply_check a s w there = refl
  called_keeps policy Call.delete (inl a) s w there = cc
  called_keeps policy Call.delete (inr retained) s w there =
      ap (λ v. stored v spec.secret_name)
        (delete_action_retained marshal region checkers client stored stores finds spec s w
          retained)
  called_keeps policy Call.delete_check a s w there = refl
  called_keeps policy Call.health_check a s w there = refl

  -- Where the update policy of the configuration is not to update, or none is given, a secret that is
  -- there keeps its text over any calls of the handlers, in any order, whether they succeed or fail
  -- at any of their calls, as long as the configuration is the same and nobody else changes the
  -- text. A call of `deleteAction` is among them only if the deletion policy is to retain the secret.
  pub Reach-unchanged :
      IsNotUpdated marshal region checkers client stored stores finds spec
      → (text : String) (x y : SecretPushStatus × W) → stored x.1 spec.secret_name ≡ some text
      → Reach
          (provider marshal checkers region client provider_name)
          name
          spec
          (λ w w'. stored w' spec.secret_name ≡ stored w spec.secret_name)
          Spares
          x
          y
      → stored y.1 spec.secret_name ≡ some text
  Reach-unchanged policy text x y h r =
      Reach_keeps _ name spec _ _ (λ z. stored z.1 spec.secret_name ≡ some text)
        (λ k a z g.
          let there : stored z.1 spec.secret_name ≢ none = λ e. cc in
          let kept = called_keeps policy k a z.0 z.1 there ∙ g in (kept, kept))
        (λ s w w' o g. o ∙ g) r h
