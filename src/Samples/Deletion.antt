-- ===== src/Samples/Deletion.antt =====
-- The theorems on the deletion of an instance and of a secret, at a service that refuses snapshots
-- without a name and at one that deletes.
use componator_aws_providers.Prelude.{
  String, ◌≡◌, refl, true, some, Bool, List, [], ◌∷◌, arith, eq_iff, eq_refl,
}
use componator_aws_providers.Prelude.Texts.{mem, erase, mem-erase}
use componator_aws_providers.Go.{GoError, errorf}
use componator_aws_providers.Go.Flow.{ok, err}
use componator_aws_providers.Toolkit.{NamespacedName}
use componator_aws_providers.Lifecycle.{Provider, Call, called, here, next, stored, lost}
use componator_aws_providers.Rds.Config.{RdsConfig, RdsStatus, resolve_spec, fill_defaults}
use componator_aws_providers.Rds.Errors.{
  is_instance_not_found_error, is_instance_already_being_deleted_error,
}
use componator_aws_providers.Rds.Client.{RdsClient}
use componator_aws_providers.Rds.Operations.{delete_action}
use componator_aws_providers.Rds.Operations.Unnamed.{RefusesUnnamed, IsRefused, Reach-IsRefused}
use componator_aws_providers.Rds.Register as Rds
use componator_aws_providers.SecretPush.Client.{SecretsClient}
use componator_aws_providers.SecretPush.Config.{SecretPushSpec}
use componator_aws_providers.SecretPush.Operations as SecretPush
use componator_aws_providers.SecretPush.Operations.Policies.{
  DeletesSecrets, Deleted, delete_action-Deleted,
}
use componator_aws_providers.Samples.Instance
use componator_aws_providers.Samples.Secret

abbrev bad_name : GoError
bad_name = errorf "InvalidParameterValue" []

-- The instance is always there, and no deletion succeeds.
abbrev strict : RdsClient (Unit {0})
strict = record Instance.running { delete_db_instance = λ c w. (err bad_name, w) }

abbrev there : Unit {0} → String → Bool
there w id = true

strict-RefusesUnnamed : RefusesUnnamed strict there
unfolding is_instance_not_found_error is_instance_already_being_deleted_error
strict-RefusesUnnamed = record {
  refuses = λ c id w named wanted unnamed h. (bad_name, refl, refl, refl, refl);
  describe_keeps = λ asked id w h. refl;
}

abbrev unnamed : RdsConfig
unnamed = record Instance.spec { final_db_snapshot_identifier = "" }

abbrev component : NamespacedName
component = record { namespace = "ns"; name = "component" }

abbrev strict_provider : Provider (Unit {0}) RdsConfig RdsStatus
strict_provider = Rds.provider [] strict "rds"

-- The instance is deleted, and checked with the status lost.
abbrev begun : RdsStatus × Unit {0}
begun = (Instance.status_of "available", tt)

abbrev after_delete : RdsStatus × Unit {0}
after_delete = called component unnamed strict_provider Call.delete begun

abbrev after_check : RdsStatus × Unit {0}
after_check =
    (after_delete.0, (called component unnamed strict_provider Call.delete_check after_delete).1)

Reach-IsRefused_example :
    (resolve_spec unnamed ≡ ok (fill_defaults unnamed))
    × IsRefused [] strict there strict-RefusesUnnamed unnamed after_check.0
        (delete_action [] strict unnamed after_check.0 after_check.1)
Reach-IsRefused_example =
    Reach-IsRefused [] strict there strict-RefusesUnnamed "rds" component unnamed
      (λ e. ground (arith, e)) refl begun after_check
      (record {
        identified = λ e. ground (arith, (eq_iff "db" "").1 e);
        owned = λ e. ground (arith, (eq_iff "owner" "").1 e);
        managed = λ e. ground (arith, e);
      })
      refl
      (next (next here (stored Call.delete refl begun)) (lost Call.delete_check refl after_delete))

-- A drawer of secrets, by their ARNs.
abbrev drawer : SecretsClient (List String)
drawer = record {
  describe_secret = λ id w. (ok (some id, some "secret"), w);
  create_secret = λ c w. (ok (some c.name, some "v1"), c.name ∷ w);
  update_secret = λ id value w. (ok (some id, some "v2"), w);
  delete_secret = λ id force w. (ok tt, erase id w);
  get_random_password = λ g w. (ok (some "random"), w);
}

abbrev is_in : List String → String → Bool
is_in w arn = mem arn w

drawer-DeletesSecrets : DeletesSecrets drawer is_in
drawer-DeletesSecrets = record {
  deleted = λ arn w h. ground (arith, mem-erase arn arn w, eq_refl arn);
  not_found = λ arn w e h missing. cc;
}

abbrev deleted_spec : SecretPushSpec
deleted_spec = record Secret.spec { deletion_policy = "Delete" }

delete_action-Deleted_example :
    Deleted Secret.marshal "eu" [] drawer is_in drawer-DeletesSecrets deleted_spec Secret.status
      ("arn:secret" ∷ [])
      (SecretPush.delete_action Secret.marshal "eu" [] drawer deleted_spec Secret.status
        ("arn:secret" ∷ []))
delete_action-Deleted_example =
    delete_action-Deleted Secret.marshal "eu" [] drawer is_in drawer-DeletesSecrets deleted_spec
      Secret.status ("arn:secret" ∷ [])
