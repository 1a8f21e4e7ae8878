-- ===== src/Rds/Operations/Ignored.antt =====
-- What a change of the configuration does to an instance that is there.
use componator_aws_providers.Prelude.{
  String, ◌≡◌, refl, inl, inr, Bool, Option, some, List, ◌==◌, Bool-cases,
}
use componator_aws_providers.Prelude.Int.{ℤ}
use componator_aws_providers.Go.Flow.{ok, rescue, continue}
use componator_aws_providers.Aws.{Checker}
use componator_aws_providers.Rds.Config.{RdsConfig, RdsStatus, unmanaged, resolve_spec}
use componator_aws_providers.Rds.Client.{DbInstance, RdsClient}
use componator_aws_providers.Rds.Calls.{get_instance_data, modify_input, modify_instance}
use componator_aws_providers.Rds.Operations.{apply_branch, apply_resolved, apply_action}

-- The configuration with other values for the public access, the security groups, the port, the type
-- of the storage, and the monitoring.
abbrev pub with_others :
    RdsConfig → Option Bool → List String → Option ℤ → String → Option ℤ → Option Bool → RdsConfig
with_others c public groups port storage interval insights = record c {
  publicly_accessible = public;
  vpc_security_group_ids = groups;
  port = port;
  storage_type = storage;
  monitoring_interval = interval;
  performance_insights_enabled = insights;
}

module _ {W : Type 0} (checkers : List Checker) (client : RdsClient W) where
  -- Where the look-up finds the instance, `applyAction` does not see a change of the public access,
  -- the security groups, the port, the type of the storage or the monitoring in the configuration:
  -- it makes the same calls and gives the same result.
  pub apply_action_ignores :
      (c : RdsConfig) (public : Option Bool) (groups : List String) (port : Option ℤ)
      (storage : String) (interval : Option ℤ) (insights : Option Bool) (status : RdsStatus)
      (i : DbInstance) (w : W)
      → (get_instance_data client c.instance_id w).0 ≡ ok (some i)
      → apply_action checkers client
          (with_others c public groups port storage interval insights)
          status
          w
        ≡ apply_action checkers client c status w
  unfolding apply_action resolve_spec apply_resolved apply_branch modify_instance modify_input
  apply_action_ignores c public groups port storage interval insights status i w found =
      elim (Bool-cases (c.instance_id == "")) [
        | inl e ↦ rw e refl
        | inr e ↦ elim (Bool-cases (c.master_username == "")) [
          | inl f ↦ rw (e, f) refl
          | inr f ↦ elim (Bool-cases (unmanaged c.manage_master_user_password)) [
            | inl g ↦ rw (e, f, g) refl
            | inr g ↦ rw (e, f, g) (rw (found, rescue, continue) refl)
          ]
        ]
      ]
