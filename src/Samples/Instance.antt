-- ===== src/Samples/Instance.antt =====
-- The theorems on the RDS provider, at a service with one instance and at one with none.
use componator_aws_providers.Prelude.{
  false, String, ◌≡◌, refl, ap, ◌∙◌, ◌↔◌, ◌||◌, true, Option, none, some, List, [], ◌∷◌, ◌==◌,
  arith, eq_iff,
}
use componator_aws_providers.Prelude.Int.{pos}
use componator_aws_providers.Go.{Exception, SdkError, sdk, wrapf, as_sdk}
use componator_aws_providers.Go.Flow.{ok}
use componator_aws_providers.Aws.{to_string}
use componator_aws_providers.Prelude.Texts.{mem}
use componator_aws_providers.Toolkit.{action_status, check_status}
use componator_aws_providers.Rds.Conversion.{string_value}
use componator_aws_providers.Rds.Status
use componator_aws_providers.Rds.Config.{RdsConfig, RdsStatus, resolve_spec, fill_defaults}
use componator_aws_providers.Rds.Config.Defaults.{
  IsAcceptable, resolve_spec-IsAcceptable, IsSafe, resolve_spec-IsSafe,
}
use componator_aws_providers.Rds.Client.{MasterUserSecret, DbInstance, RdsClient}
use componator_aws_providers.Rds.Errors.{is_instance_already_being_deleted_error}
use componator_aws_providers.Rds.Errors.Search.{SaysBeingDeleted, already_being_deleted_iff}
use componator_aws_providers.Rds.Calls.{get_instance_data}
use componator_aws_providers.Rds.Calls.{create_input}
use componator_aws_providers.Rds.Calls.Requests.{IsSafeRequest, create_input-IsSafeRequest}
use componator_aws_providers.Rds.Operations.{
  apply_action, applied_by_status, check_applied, delete_action, check_deleted,
}
use componator_aws_providers.Rds.Operations.Answers.{IsNamed, NamesSecrets, KeepsSecret}
use componator_aws_providers.Rds.Operations.Secret.{handlers-KeepsSecret}
use componator_aws_providers.Rds.Operations.Ignored.{with_others, apply_action_ignores}
use componator_aws_providers.Rds.Health.{check_health}
use componator_aws_providers.Rds.Health.Agreement.{
  is_complete, is_healthy, check_health-check_applied, HasReason, broken_reason,
}

abbrev instance_sample : DbInstance
instance_sample = record {
  db_instance_status = some "modifying";
  db_instance_arn = some "arn:db";
  endpoint = none;
  availability_zone = none;
  master_user_secret = some (record { secret_arn = some "arn:secret" });
}

abbrev service : List DbInstance → RdsClient (Unit {0})
service instances = record {
  describe_db_instances = λ id w. (ok instances, w);
  create_db_instance = λ c w. (ok instance_sample, w);
  modify_db_instance = λ c w. (ok (some instance_sample), w);
  delete_db_instance = λ c w. (ok (some instance_sample), w);
}

abbrev pub running : RdsClient (Unit {0})
running = service (instance_sample ∷ [])

abbrev arn_of : Option MasterUserSecret → Option String
arn_of none = none
arn_of (some s) = s.secret_arn

sample-IsNamed : IsNamed instance_sample
sample-IsNamed s h e = ground (arith, (eq_iff "arn:secret" "").1 (ap to_string (ap arn_of h ∙ e)))

pub running-NamesSecrets : NamesSecrets running
running-NamesSecrets = record {
  described =
      λ id w is h. let same : (instance_sample ∷ []) ≡ is = cc in rw (← same) (sample-IsNamed, tt);
  created = λ c w i h. let same : instance_sample ≡ i = cc in rw (← same) sample-IsNamed;
  modified = λ c w i h. let same : some instance_sample ≡ i = cc in rw (← same) sample-IsNamed;
  deleted = λ c w i h. let same : some instance_sample ≡ i = cc in rw (← same) sample-IsNamed;
}

abbrev pub spec : RdsConfig
spec = record {
  instance_id = "db";
  database_engine = "postgres";
  engine_version = "15";
  instance_class = "small";
  database_name = "data";
  allocated_storage = pos 20;
  storage_type = "";
  storage_encrypted = none;
  kms_key_id = "";
  master_username = "owner";
  manage_master_user_password = none;
  master_user_secret_kms_key_id = "";
  vpc_security_group_ids = [];
  subnet_group_name = "";
  publicly_accessible = some true;
  port = none;
  backup_retention_period = none;
  preferred_backup_window = "";
  preferred_maintenance_window = "";
  auto_minor_version_upgrade = none;
  multi_az = none;
  performance_insights_enabled = none;
  monitoring_interval = none;
  deletion_protection = none;
  skip_final_snapshot = none;
  final_db_snapshot_identifier = "last";
}

abbrev pub status_of : String → RdsStatus
status_of s = record {
  instance_status = s;
  instance_arn = "";
  endpoint = "";
  port = pos 0;
  availability_zone = "";
  master_user_secret_arn = "arn:old";
}

handlers-KeepsSecret_example :
    KeepsSecret (status_of "") (action_status (apply_action [] running spec (status_of "") tt).0)
    × KeepsSecret (status_of "") (check_status (check_applied [] running spec (status_of "") tt).0)
    × KeepsSecret (status_of "") (action_status (delete_action [] running spec (status_of "") tt).0)
    × KeepsSecret (status_of "") (check_status (check_deleted [] running spec (status_of "") tt).0)
handlers-KeepsSecret_example =
    handlers-KeepsSecret [] running running-NamesSecrets spec (status_of "") tt

resolve_spec-IsAcceptable_example :
    (resolve_spec spec ≡ ok (fill_defaults spec))
    ↔ (IsAcceptable spec × (fill_defaults spec ≡ fill_defaults spec))
resolve_spec-IsAcceptable_example = resolve_spec-IsAcceptable spec (fill_defaults spec)

resolve_spec-IsSafe_example : IsSafe spec (fill_defaults spec)
unfolding resolve_spec
resolve_spec-IsSafe_example = resolve_spec-IsSafe spec (fill_defaults spec) refl

check_health-check_applied_example :
    (is_healthy (check_health [] running spec tt).0 ≡ (
      is_complete (check_applied [] running spec (status_of "") tt).0
      || string_value instance_sample.db_instance_status == Status.modifying))
    × ((check_health [] running spec tt).1 ≡ (check_applied [] running spec (status_of "") tt).1)
unfolding get_instance_data
check_health-check_applied_example =
    check_health-check_applied [] running spec (status_of "") instance_sample tt refl

broken_reason_example : HasReason [] running "db" "stopped"
unfolding applied_by_status mem
broken_reason_example = broken_reason [] running "db" (status_of "stopped") refl

abbrev going : SdkError
going = record {
  exception = Exception.invalid_db_instance_state;
  message = "Instance db is Already Being Deleted.";
  code = "";
}

already_being_deleted_iff_example :
    (is_instance_already_being_deleted_error (some (wrapf "%w" [] (sdk going))) ≡ true)
    ↔ ((x : SdkError) × (as_sdk (wrapf "%w" [] (sdk going)) ≡ some x) × SaysBeingDeleted x)
already_being_deleted_iff_example = already_being_deleted_iff (wrapf "%w" [] (sdk going))

create_input-IsSafeRequest_example : IsSafeRequest spec (create_input (fill_defaults spec))
unfolding resolve_spec
create_input-IsSafeRequest_example = create_input-IsSafeRequest spec (fill_defaults spec) refl

apply_action_ignores_example :
    apply_action [] running
      (with_others spec (some false) ("sg" ∷ []) none "gp3" none none)
      (status_of "")
      tt
    ≡ apply_action [] running spec (status_of "") tt
unfolding get_instance_data
apply_action_ignores_example =
    apply_action_ignores [] running spec (some false) ("sg" ∷ []) none "gp3" none none
      (status_of "") instance_sample tt refl
