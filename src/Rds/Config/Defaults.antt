-- ===== src/Rds/Config/Defaults.antt =====
-- What `resolveSpec` of the RDS provider accepts, and the defaults that it puts in.
use componator_aws_providers.Prelude.{◌≡◌, ◌≢◌, ◌↔◌, true, false, some, arith, eq_iff}
use componator_aws_providers.Go.Flow.{ok}
use componator_aws_providers.Rds.Config.{RdsConfig, fill_defaults, resolve_spec}

-- What a configuration has to have.
pub record IsAcceptable (c : RdsConfig) : Type 0 where
  pub identified : c.instance_id ≢ ""
  pub owned : c.master_username ≢ ""
  pub managed : c.manage_master_user_password ≢ some false

-- `resolveSpec` accepts exactly the configurations with an instance identifier and a master user
-- name that do not switch managed passwords off; what it accepts gets its defaults.
pub resolve_spec-IsAcceptable :
    (c d : RdsConfig) → (resolve_spec c ≡ ok d) ↔ (IsAcceptable c × (d ≡ fill_defaults c))
unfolding resolve_spec
resolve_spec-IsAcceptable c d = (
  λ h. (
    record {
      identified = λ e. ground (arith, (eq_iff c.instance_id "").1 e);
      owned = λ e. ground (arith, (eq_iff c.master_username "").1 e);
      managed = λ e. ground (arith, e);
    },
    ground arith,
  ),
  λ (v, e). ground (
    arith,
    v.identified,
    v.owned,
    v.managed,
    eq_iff c.instance_id "",
    eq_iff c.master_username "",
  ),
)

-- A resolved configuration resolves to itself.
pub resolve_spec_idem : (c d : RdsConfig) → resolve_spec c ≡ ok d → resolve_spec d ≡ ok d
unfolding resolve_spec
resolve_spec_idem c d h = ground (arith, eq_iff c.storage_type "")

-- Unless the configuration says otherwise, an accepted instance is encrypted, not public, protected
-- from deletion, and leaves a final snapshot; its password is always managed by RDS. What the
-- configuration says of these is kept.
pub record IsSafe (c d : RdsConfig) : Type 0 where
  pub managed : d.manage_master_user_password ≡ some true
  pub encrypted : c.storage_encrypted ≢ some false → d.storage_encrypted ≡ some true
  pub private : c.publicly_accessible ≢ some true → d.publicly_accessible ≡ some false
  pub protected : c.deletion_protection ≢ some false → d.deletion_protection ≡ some true
  pub snapshot : c.skip_final_snapshot ≢ some true → d.skip_final_snapshot ≡ some false
  pub unencrypted : c.storage_encrypted ≡ some false → d.storage_encrypted ≡ some false
  pub public : c.publicly_accessible ≡ some true → d.publicly_accessible ≡ some true
  pub unprotected : c.deletion_protection ≡ some false → d.deletion_protection ≡ some false
  pub no_snapshot : c.skip_final_snapshot ≡ some true → d.skip_final_snapshot ≡ some true

-- An accepted configuration is as safe as it says, and safe where it says nothing: see `IsSafe`.
pub resolve_spec-IsSafe : (c d : RdsConfig) → resolve_spec c ≡ ok d → IsSafe c d
unfolding resolve_spec
resolve_spec-IsSafe c d h = record {
  managed = ground arith;
  encrypted = λ n. ground arith;
  private = λ n. ground arith;
  protected = λ n. ground arith;
  snapshot = λ n. ground arith;
  unencrypted = λ e. ground arith;
  public = λ e. ground arith;
  unprotected = λ e. ground arith;
  no_snapshot = λ e. ground arith;
}
