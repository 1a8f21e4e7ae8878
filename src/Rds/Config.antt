-- ===== src/Rds/Config.antt =====
-- rds/config.go: the configuration and the status of an instance, and the validation of a
-- configuration. A pointer is an optional value, and an `int32` an integer.
pub mod Defaults
use componator_aws_providers.Prelude.{
  String, Bool, true, false, Option, none, some, List, [], ◌==◌, if◌then◌else◌,
}
use componator_aws_providers.Prelude.Int.{ℤ, pos}
use componator_aws_providers.Go.{GoError, errorf}
use componator_aws_providers.Go.Flow.{Result, ok, err}

pub record RdsConfig : Type 0 where
  pub instance_id : String
  pub database_engine : String
  pub engine_version : String
  pub instance_class : String
  pub database_name : String
  pub allocated_storage : ℤ
  pub storage_type : String
  pub storage_encrypted : Option Bool
  pub kms_key_id : String
  pub master_username : String
  pub manage_master_user_password : Option Bool
  pub master_user_secret_kms_key_id : String
  pub vpc_security_group_ids : List String
  pub subnet_group_name : String
  pub publicly_accessible : Option Bool
  pub port : Option ℤ
  pub backup_retention_period : Option ℤ
  pub preferred_backup_window : String
  pub preferred_maintenance_window : String
  pub auto_minor_version_upgrade : Option Bool
  pub multi_az : Option Bool
  pub performance_insights_enabled : Option Bool
  pub monitoring_interval : Option ℤ
  pub deletion_protection : Option Bool
  pub skip_final_snapshot : Option Bool
  pub final_db_snapshot_identifier : String

pub record RdsStatus : Type 0 where
  pub instance_status : String
  pub instance_arn : String
  pub endpoint : String
  pub port : ℤ
  pub availability_zone : String
  pub master_user_secret_arn : String

-- `if p == nil { p = &d }`
unfoldable pub or_default {ℓ} : {A : Type ℓ} → Option A → A → Option A
or_default none d = some d
or_default (some a) d = some a

-- The defaults that `applyDefaults` puts in after its checks.
unfoldable pub fill_defaults : RdsConfig → RdsConfig
unfolding or_default
fill_defaults c = record c {
  manage_master_user_password = or_default c.manage_master_user_password true;
  storage_type = if c.storage_type == "" then "gp2" else c.storage_type;
  storage_encrypted = or_default c.storage_encrypted true;
  publicly_accessible = or_default c.publicly_accessible false;
  backup_retention_period = or_default c.backup_retention_period (pos 7);
  auto_minor_version_upgrade = or_default c.auto_minor_version_upgrade true;
  multi_az = or_default c.multi_az false;
  performance_insights_enabled = or_default c.performance_insights_enabled false;
  monitoring_interval = or_default c.monitoring_interval (pos 0);
  deletion_protection = or_default c.deletion_protection true;
  skip_final_snapshot = or_default c.skip_final_snapshot false;
}

-- `!*config.ManageMasterUserPassword` after its default.
abbrev pub unmanaged : Option Bool → Bool
unmanaged (some false) = true
unmanaged _ = false

-- `applyDefaults`
unfoldable pub apply_defaults : RdsConfig → Result GoError RdsConfig
unfolding fill_defaults
apply_defaults c =
    if c.master_username == ""
    then err (errorf "masterUsername is required and cannot be empty" [])
    else if unmanaged c.manage_master_user_password
    then err (
        errorf
          "manageMasterUserPassword must be true - explicit password management is not supported. AWS RDS will generate secure passwords automatically"
          [])
    else ok (fill_defaults c)

-- `resolveSpec`
unfoldable pub resolve_spec : RdsConfig → Result GoError RdsConfig
unfolding apply_defaults
resolve_spec c =
    if c.instance_id == ""
    then err (errorf "InstanceID is required and cannot be empty" [])
    else apply_defaults c
