-- ===== src/Rds/Health/Agreement.antt =====
-- How the deployment check and the health check judge one instance.
use componator_aws_providers.Prelude.{
  String, ◌≡◌, refl, sym, ap, ◌∙◌, Bool, true, false, ◌||◌, Option, none, some, List, All, ◌==◌,
  if◌then◌else◌, arith, eq_iff,
}
use componator_aws_providers.Prelude.Texts.{mem, mem_all}
use componator_aws_providers.Go.Flow.{ok, rescue, continue, merge}
use componator_aws_providers.Aws.{Checker}
use componator_aws_providers.Toolkit.{
  CheckResult, check_complete, check_result_for_error, HealthCheckResult, health_check_healthy,
  health_check_degraded,
}
use componator_aws_providers.Rds.Conversion.{string_value}
use componator_aws_providers.Rds.Status
use componator_aws_providers.Rds.Config.{RdsConfig, RdsStatus}
use componator_aws_providers.Rds.Client.{DbInstance, RdsClient}
use componator_aws_providers.Rds.Calls.{get_instance_data, update_status_from_instance}
use componator_aws_providers.Rds.Operations.{connectable, broken, applied_by_status, check_applied}
use componator_aws_providers.Rds.Health.{operational, health_by_status, check_health}

abbrev pub is_complete : CheckResult RdsStatus → Bool
is_complete (check_complete s m) = true
is_complete _ = false

abbrev pub is_error : CheckResult RdsStatus → Bool
is_error (check_result_for_error s e c) = true
is_error _ = false

abbrev pub is_healthy : HealthCheckResult → Bool
is_healthy (health_check_healthy m) = true
is_healthy _ = false

-- The reason of a degraded component.
abbrev pub reason : HealthCheckResult → Option String
reason (health_check_degraded r m) = some r
reason _ = none

operational_iff : (s : String) → mem s operational ≡ (mem s connectable || s == Status.modifying)
unfolding mem
operational_iff s = ground (arith, eq_iff Status.modifying s, eq_iff s Status.modifying)

health-operational : (id s : String) → is_healthy (health_by_status id s) ≡ mem s operational
unfolding health_by_status
health-operational id s = ground arith

module _ {W : Type 0} (checkers : List Checker) (client : RdsClient W) where
  applied-connectable :
      (id : String) (s : RdsStatus)
      → is_complete (applied_by_status checkers client id s) ≡ mem s.instance_status connectable
  unfolding applied_by_status
  applied-connectable id s = ground arith

  judged_alike :
      (id : String) (s : RdsStatus)
      → is_healthy (health_by_status id s.instance_status) ≡ (
          is_complete (applied_by_status checkers client id s)
          || s.instance_status == Status.modifying)
  judged_alike id s =
      health-operational id s.instance_status
      ∙ operational_iff s.instance_status
      ∙ ap (λ b. b || s.instance_status == Status.modifying) (sym (applied-connectable id s))

  -- In one world, where the look-up finds the instance, the health check finds it healthy exactly
  -- if the deployment check finds it complete or its status is "modifying"; both read only what the
  -- look-up reads.
  pub check_health-check_applied :
      (spec : RdsConfig) (status : RdsStatus) (i : DbInstance) (w : W)
      → (get_instance_data client spec.instance_id w).0 ≡ ok (some i)
      → let health = check_health checkers client spec w in
        let applied = check_applied checkers client spec status w in
        (is_healthy health.0
          ≡ (is_complete applied.0 || string_value i.db_instance_status == Status.modifying))
        × (health.1 ≡ applied.1)
  unfolding check_health check_applied update_status_from_instance
  check_health-check_applied spec status i w found =
      rw (found, rescue, continue, merge)
        (judged_alike spec.instance_id (update_status_from_instance status (some i)), refl)

  -- Where the look-up finds no instance, the deployment check gives an error and the health check a
  -- degraded component, with the reason that the instance was deleted.
  pub check_health_missing :
      (spec : RdsConfig) (status : RdsStatus) (w : W)
      → (get_instance_data client spec.instance_id w).0 ≡ ok none
      → (is_error (check_applied checkers client spec status w).0 ≡ true)
        × (reason (check_health checkers client spec w).0 ≡ some "InstanceDeleted")
  unfolding check_health check_applied
  check_health_missing spec status w found = rw (found, rescue, continue, merge) (refl, refl)

  error-broken :
      (id : String) (s : RdsStatus)
      → is_error (applied_by_status checkers client id s) ≡ true
      → mem s.instance_status broken ≡ true
  unfolding applied_by_status
  error-broken id s h = ground arith

  -- The reason for which a status that fails a deployment is degraded.
  abbrev reason_of_broken : String → String
  reason_of_broken s =
      if s == Status.storage_full
      then "StorageFull"
      else if s == Status.stopped || s == Status.stopping
      then "Stopped"
      else "Failed"

  abbrev pub HasReason : String → String → Type 0
  HasReason id s = reason (health_by_status id s) ≡ some (reason_of_broken s)

  broken_reasons : (id : String) → All (HasReason id) broken
  unfolding health_by_status mem
  broken_reasons id =
      (refl, (refl, (refl, (refl, (refl, (refl, (refl, (refl, (refl, (refl, tt))))))))))

  -- A status that fails a deployment is degraded to the health check: for "StorageFull" if it is
  -- "storage-full", for "Stopped" if it is "stopped" or "stopping", and for "Failed" otherwise.
  pub broken_reason :
      (id : String) (s : RdsStatus)
      → is_error (applied_by_status checkers client id s) ≡ true
      → HasReason id s.instance_status
  broken_reason id s h =
      mem_all (HasReason id) s.instance_status broken (broken_reasons id) (error-broken id s h)
