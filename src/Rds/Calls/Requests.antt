-- ===== src/Rds/Calls/Requests.antt =====
-- What the request of `createInstance` says for an accepted configuration.
use componator_aws_providers.Prelude.{◌≡◌, ◌≢◌, true, false, some, arith}
use componator_aws_providers.Go.Flow.{ok}
use componator_aws_providers.Rds.Config.{RdsConfig, resolve_spec}
use componator_aws_providers.Rds.Client.{CreateDbInstanceInput}
use componator_aws_providers.Rds.Calls.{create_input}

-- The request `i` is as safe as the configuration `c` says, and safe where it says nothing.
pub record IsSafeRequest (c : RdsConfig) (i : CreateDbInstanceInput) : Type 0 where
  pub named : i.db_instance_identifier ≡ some c.instance_id
  pub managed : i.manage_master_user_password ≡ some true
  pub encrypted : c.storage_encrypted ≢ some false → i.storage_encrypted ≡ some true
  pub private : c.publicly_accessible ≢ some true → i.publicly_accessible ≡ some false
  pub protected : c.deletion_protection ≢ some false → i.deletion_protection ≡ some true

-- The request to create the instance of an accepted configuration names it and asks for a managed
-- password; unless the configuration says otherwise, it asks for encryption and for protection from
-- deletion, and against public access.
pub create_input-IsSafeRequest :
    (c d : RdsConfig) → resolve_spec c ≡ ok d → IsSafeRequest c (create_input d)
unfolding resolve_spec create_input
create_input-IsSafeRequest c d h = record {
  named = ground arith;
  managed = ground arith;
  encrypted = λ n. ground arith;
  private = λ n. ground arith;
  protected = λ n. ground arith;
}
