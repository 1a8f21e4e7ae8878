-- ===== src/Rds/Calls.antt =====
-- rds/aws_rds.go: the calls of the RDS client, and the status that an instance gives.
pub mod Requests
use componator_aws_providers.Prelude.{
  String, true, false, Option, none, some, List, [], ◌∷◌, ◌==◌, if◌then◌else◌,
}
use componator_aws_providers.Go.{GoError, wrapf}
use componator_aws_providers.Go.Flow.{Proc, pure, stop, ◌>>=◌, ◌catch◌, ◌or_return◌}
use componator_aws_providers.Rds.Conversion.{
  string_ptr, int32_ptr, bool_ptr, optional_string_ptr, passthrough_positive_int32_ptr,
  passthrough_int32_ptr, passthrough_bool_ptr, string_value, bool_value, endpoint_address,
  endpoint_port,
}
use componator_aws_providers.Rds.Config.{RdsConfig, RdsStatus}
use componator_aws_providers.Rds.Client.{
  MasterUserSecret, DbInstance, CreateDbInstanceInput, ModifyDbInstanceInput, DeleteDbInstanceInput,
  RdsClient,
}
use componator_aws_providers.Rds.Errors.{
  is_instance_not_found_error, is_instance_already_being_deleted_error,
}

abbrev pub first : List DbInstance → Option DbInstance
first [] = none
first (i ∷ instances) = some i

-- The input of `createInstance`.
unfoldable pub create_input : RdsConfig → CreateDbInstanceInput
unfolding optional_string_ptr passthrough_positive_int32_ptr passthrough_int32_ptr
    passthrough_bool_ptr
create_input c = record {
  db_instance_identifier = string_ptr c.instance_id;
  db_instance_class = string_ptr c.instance_class;
  engine = string_ptr c.database_engine;
  engine_version = string_ptr c.engine_version;
  allocated_storage = int32_ptr c.allocated_storage;
  master_username = string_ptr c.master_username;
  db_name = string_ptr c.database_name;
  manage_master_user_password = passthrough_bool_ptr c.manage_master_user_password;
  storage_type = optional_string_ptr c.storage_type;
  storage_encrypted = passthrough_bool_ptr c.storage_encrypted;
  kms_key_id = optional_string_ptr c.kms_key_id;
  vpc_security_group_ids = c.vpc_security_group_ids;
  db_subnet_group_name = optional_string_ptr c.subnet_group_name;
  publicly_accessible = passthrough_bool_ptr c.publicly_accessible;
  port = passthrough_int32_ptr c.port;
  backup_retention_period = passthrough_int32_ptr c.backup_retention_period;
  preferred_backup_window = optional_string_ptr c.preferred_backup_window;
  preferred_maintenance_window = optional_string_ptr c.preferred_maintenance_window;
  auto_minor_version_upgrade = passthrough_bool_ptr c.auto_minor_version_upgrade;
  multi_az = passthrough_bool_ptr c.multi_az;
  enable_performance_insights = passthrough_bool_ptr c.performance_insights_enabled;
  monitoring_interval = passthrough_positive_int32_ptr c.monitoring_interval;
  deletion_protection = passthrough_bool_ptr c.deletion_protection;
  master_user_secret_kms_key_id =
      if c.master_user_secret_kms_key_id == ""
      then none
      else string_ptr c.master_user_secret_kms_key_id;
}

-- The input of `modifyInstance`.
unfoldable pub modify_input : RdsConfig → ModifyDbInstanceInput
unfolding optional_string_ptr passthrough_int32_ptr passthrough_bool_ptr
modify_input c = record {
  db_instance_identifier = string_ptr c.instance_id;
  db_instance_class = string_ptr c.instance_class;
  allocated_storage = int32_ptr c.allocated_storage;
  engine_version = string_ptr c.engine_version;
  backup_retention_period = passthrough_int32_ptr c.backup_retention_period;
  multi_az = passthrough_bool_ptr c.multi_az;
  preferred_backup_window = optional_string_ptr c.preferred_backup_window;
  preferred_maintenance_window = optional_string_ptr c.preferred_maintenance_window;
  auto_minor_version_upgrade = passthrough_bool_ptr c.auto_minor_version_upgrade;
  deletion_protection = passthrough_bool_ptr c.deletion_protection;
  apply_immediately = bool_ptr true;
}

-- The input of `deleteInstance`.
unfoldable pub delete_input : RdsConfig → DeleteDbInstanceInput
unfolding bool_value
delete_input c =
    if bool_value c.skip_final_snapshot
    then record {
      db_instance_identifier = string_ptr c.instance_id;
      skip_final_snapshot = bool_ptr true;
      final_db_snapshot_identifier = none;
    }
    else record {
      db_instance_identifier = string_ptr c.instance_id;
      skip_final_snapshot = bool_ptr false;
      final_db_snapshot_identifier = string_ptr c.final_db_snapshot_identifier;
    }

module _ {W : Type 0} (client : RdsClient W) where
  -- `getInstanceData`; `none` is a nil instance.
  unfoldable pub get_instance_data : String → Proc W GoError (Option DbInstance)
  get_instance_data instance_id = do
    instances ← client.describe_db_instances (string_ptr instance_id) catch λ e.
        if is_instance_not_found_error (some e)
        then pure []
        else stop (wrapf "failed to describe RDS instance: %w" [] e)
    pure (first instances)

  -- `createInstance`
  unfoldable pub create_instance : RdsConfig → Proc W GoError DbInstance
  create_instance c =
      client.create_db_instance (create_input c)
      or_return wrapf "failed to create RDS instance: %w" []

  -- `modifyInstance`
  unfoldable pub modify_instance : RdsConfig → Proc W GoError (Option DbInstance)
  modify_instance c =
      client.modify_db_instance (modify_input c)
      or_return wrapf "failed to modify RDS instance: %w" []

  -- `deleteInstance`: an instance that is not there, or that is being deleted, gives nil.
  unfoldable pub delete_instance : RdsConfig → Proc W GoError (Option DbInstance)
  delete_instance c = client.delete_db_instance (delete_input c) catch λ e.
      if is_instance_not_found_error (some e)
      then pure none
      else if is_instance_already_being_deleted_error (some e)
      then pure none
      else stop (wrapf "delete RDS instance call failed: %w" [] e)

-- The secret of an instance, or what the status has already.
abbrev pub secret_or : String → Option MasterUserSecret → String
secret_or old none = old
secret_or old (some s) = elim s.secret_arn [ none ↦ old | some arn ↦ arn ]

-- `updateStatusFromInstance`
unfoldable pub update_status_from_instance : RdsStatus → Option DbInstance → RdsStatus
unfolding string_value endpoint_address endpoint_port
update_status_from_instance status none = status
update_status_from_instance status (some i) = record {
  instance_status = string_value i.db_instance_status;
  instance_arn = string_value i.db_instance_arn;
  endpoint = endpoint_address i.endpoint;
  port = endpoint_port i.endpoint;
  availability_zone = string_value i.availability_zone;
  master_user_secret_arn = secret_or status.master_user_secret_arn i.master_user_secret;
}
