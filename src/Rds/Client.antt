-- ===== src/Rds/Client.antt =====
-- The operations of the AWS RDS client that the provider calls. The client is not part of the
-- repository: its operations are parameters over an unknown world `W`. Optional fields are the
-- pointers of the SDK.
use componator_aws_providers.Prelude.{String, Bool, Option, List}
use componator_aws_providers.Prelude.Int.{ℤ}
use componator_aws_providers.Go.{GoError}
use componator_aws_providers.Go.Flow.{Proc}
use componator_aws_providers.Rds.Conversion.{Endpoint}

-- `types.MasterUserSecret`
pub record MasterUserSecret : Type 0 where
  pub secret_arn : Option String

-- `types.DBInstance`, the fields that the code reads.
pub record DbInstance : Type 0 where
  pub db_instance_status : Option String
  pub db_instance_arn : Option String
  pub endpoint : Option Endpoint
  pub availability_zone : Option String
  pub master_user_secret : Option MasterUserSecret

-- `rds.CreateDBInstanceInput`, the fields that the code sets.
pub record CreateDbInstanceInput : Type 0 where
  pub db_instance_identifier : Option String
  pub db_instance_class : Option String
  pub engine : Option String
  pub engine_version : Option String
  pub allocated_storage : Option ℤ
  pub master_username : Option String
  pub db_name : Option String
  pub manage_master_user_password : Option Bool
  pub storage_type : Option String
  pub storage_encrypted : Option Bool
  pub kms_key_id : Option String
  pub vpc_security_group_ids : List String
  pub db_subnet_group_name : Option String
  pub publicly_accessible : Option Bool
  pub port : Option ℤ
  pub backup_retention_period : Option ℤ
  pub preferred_backup_window : Option String
  pub preferred_maintenance_window : Option String
  pub auto_minor_version_upgrade : Option Bool
  pub multi_az : Option Bool
  pub enable_performance_insights : Option Bool
  pub monitoring_interval : Option ℤ
  pub deletion_protection : Option Bool
  pub master_user_secret_kms_key_id : Option String

-- `rds.ModifyDBInstanceInput`, the fields that the code sets.
pub record ModifyDbInstanceInput : Type 0 where
  pub db_instance_identifier : Option String
  pub db_instance_class : Option String
  pub allocated_storage : Option ℤ
  pub engine_version : Option String
  pub backup_retention_period : Option ℤ
  pub multi_az : Option Bool
  pub preferred_backup_window : Option String
  pub preferred_maintenance_window : Option String
  pub auto_minor_version_upgrade : Option Bool
  pub deletion_protection : Option Bool
  pub apply_immediately : Option Bool

-- `rds.DeleteDBInstanceInput`, the fields that the code sets.
pub record DeleteDbInstanceInput : Type 0 where
  pub db_instance_identifier : Option String
  pub skip_final_snapshot : Option Bool
  pub final_db_snapshot_identifier : Option String

-- The instance in the answer of a creation is dereferenced by the handler and is never nil; after a
-- modification or a deletion it may be nil.
pub record RdsClient (W : Type 0) : Type 0 where
  pub describe_db_instances : Option String → Proc W GoError (List DbInstance)
  pub create_db_instance : CreateDbInstanceInput → Proc W GoError DbInstance
  pub modify_db_instance : ModifyDbInstanceInput → Proc W GoError (Option DbInstance)
  pub delete_db_instance : DeleteDbInstanceInput → Proc W GoError (Option DbInstance)
