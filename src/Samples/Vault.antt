-- ===== src/Samples/Vault.antt =====
-- The theorems on the stored secret, at a service that keeps the texts of the secrets by their names
-- and at a JSON that knows the maps with a user and an empty password.
use componator_aws_providers.Prelude.{
  String, ◌≡◌, ◌≢◌, refl, ap, ◌∙◌, inl, inr, ◌&&◌, Option, none, some, List, [], ◌∷◌, ◌==◌, arith,
  eq_iff, eq_refl, if◌then◌else◌,
}
use componator_aws_providers.Prelude.Texts.{mem}
use componator_aws_providers.Go.{Exception, GoError, sdk, errorf}
use componator_aws_providers.Go.Flow.{Result, ok, err}
use componator_aws_providers.Aws.{to_string}
use componator_aws_providers.SecretPush.Config.{
  SecretPushSpec, SecretPushStatus, field_error, fields_error, resolve_enum_value, resolve_spec,
}
use componator_aws_providers.SecretPush.Config.Validity.{with_defaults}
use componator_aws_providers.SecretPush.Client.{SecretsClient}
use componator_aws_providers.SecretPush.Calls.{Marshal, get_random_password, create_secret}
use componator_aws_providers.Lifecycle.{Provider, Call, called, Step, here, next}
use componator_aws_providers.SecretPush.Register as SecretPush
use componator_aws_providers.SecretPush.Lifetime.{Reach-unchanged}
use componator_aws_providers.SecretPush.Storage.{FindsSecrets, lookup, StoresSecrets, ReadsBack}
use componator_aws_providers.SecretPush.Operations.{apply_action}
use componator_aws_providers.SecretPush.Operations.Stored.{Stored, apply_action-Stored}
use componator_aws_providers.Samples.Secret

abbrev Texts : Type 0
Texts = List (String × String)

abbrev stored : Texts → String → Option String
stored w n = lookup n w

abbrev described : Option String → Result GoError (Option String × Option String)
described none =
    err (sdk (record { exception = Exception.resource_not_found; message = ""; code = "" }))
described (some text) = ok (some "arn", some "secret")

abbrev vault : SecretsClient Texts
vault = record {
  describe_secret = λ n w. (described (lookup n w), w);
  create_secret = λ c w. (ok (some "arn", some "v1"), (c.name, c.secret_string) ∷ w);
  update_secret = λ n text w. (ok (some "arn", some "v2"), (n, text) ∷ w);
  delete_secret = λ id force w. (ok tt, w);
  get_random_password = λ g w. (err (errorf "refused" []), w);
}

described_some : (t : Option String) (a b : Option String) → described t ≡ ok (a, b) → t ≢ none
described_some none a b h = λ e. cc
described_some (some text) a b h = λ e. cc

vault-StoresSecrets : StoresSecrets vault stored
unfolding lookup
vault-StoresSecrets = record {
  create_stores = λ c w out h. ground (arith, eq_refl c.name);
  update_stores = λ n text w out h. ground (arith, eq_refl n);
  described = λ n w a b h there. described_some (lookup n w) a b h;
  describe_keeps = λ id n w. refl;
  password_keeps = λ g n w. refl;
}

abbrev marshal : Marshal
marshal [] = err (errorf "unknown" [])
marshal (a ∷ []) = err (errorf "unknown" [])
marshal ((a, v) ∷ (b, p) ∷ []) =
    if a == "user" && (b == "password" && p == "") then ok v else err (errorf "unknown" [])
marshal (a ∷ b ∷ c ∷ es) = err (errorf "unknown" [])

abbrev read : String → String → Option String
read text k = lookup k (("user", text) ∷ ("password", "") ∷ [])

marshal-ReadsBack : ReadsBack marshal read
unfolding lookup
marshal-ReadsBack [] text d h k = cc
marshal-ReadsBack (a ∷ []) text d h k = cc
marshal-ReadsBack ((a, v) ∷ (b, p) ∷ []) text d h k =
    let x : a ≡ "user" = ground (arith, h, eq_iff a "user") in
    let y : b ≡ "password" = ground (arith, h, eq_iff b "password") in
    let z : p ≡ "" = ground (arith, h, eq_iff p "") in
    let v' : v ≡ text = ground (arith, h) in rw (x, y, z, v') refl
marshal-ReadsBack (a ∷ b ∷ c ∷ es) text d h k = cc

apply_action-Stored_example :
    Stored marshal "eu" [] vault stored vault-StoresSecrets read marshal-ReadsBack
      (with_defaults Secret.spec)
      []
      (apply_action marshal "eu" [] vault Secret.name Secret.spec Secret.status [])
unfolding resolve_spec fields_error field_error resolve_enum_value mem
apply_action-Stored_example =
    apply_action-Stored marshal "eu" [] vault stored vault-StoresSecrets read marshal-ReadsBack
      Secret.name Secret.spec (with_defaults Secret.spec) Secret.status [] refl (refl, (refl, tt))

described_named :
    (t : Option String) (a b : Option String)
    → t ≢ none
    → described t ≡ ok (a, b)
    → to_string a ≢ ""
described_named none a b there h = absurd (there refl)
described_named (some text) a b there h =
    let same : some "arn" ≡ a = cc in
    λ e. ground (arith, (eq_iff "arn" "").1 (ap to_string same ∙ e))

described_missing : (t : Option String) (e : GoError) → described t ≡ err e → t ≡ none
described_missing none e h = refl
described_missing (some text) e h = cc

vault-FindsSecrets : FindsSecrets vault stored
vault-FindsSecrets = record {
  named = λ n w a b there h. described_named (lookup n w) a b there h;
  missing = λ n w e h absent. described_missing (lookup n w) e h;
}

abbrev vault_provider : Provider Texts SecretPushSpec SecretPushStatus
vault_provider = SecretPush.provider marshal [] "eu" vault "secret-push"

-- The secret is there, and the component is applied and then deleted.
abbrev before : SecretPushStatus × Texts
before = (Secret.status, ("secret", "old") ∷ [])

abbrev after_apply : SecretPushStatus × Texts
after_apply = called Secret.name Secret.spec vault_provider Call.apply before

abbrev after_delete : SecretPushStatus × Texts
after_delete = called Secret.name Secret.spec vault_provider Call.delete after_apply

Reach-unchanged_example : stored after_delete.1 "secret" ≡ some "old"
unfolding lookup
Reach-unchanged_example =
    Reach-unchanged marshal "eu" [] vault stored vault-StoresSecrets vault-FindsSecrets
      "secret-push" Secret.name Secret.spec (inl refl) "old" before after_delete refl
      (next (next here (Step.stored Call.apply (inl refl) before))
        (Step.stored Call.delete (inr refl) after_apply))

-- The component is applied where there is no secret, and once more.
abbrev first_apply : SecretPushStatus × Texts
first_apply = called Secret.name Secret.spec vault_provider Call.apply (Secret.status, [])

abbrev second_apply : SecretPushStatus × Texts
second_apply = called Secret.name Secret.spec vault_provider Call.apply first_apply
