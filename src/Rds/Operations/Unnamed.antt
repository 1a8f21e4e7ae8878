-- ===== src/Rds/Operations/Unnamed.antt =====
-- rds/operations.go: the deletion of an instance without a name for its final snapshot.
use componator_aws_providers.Prelude.{
  String, ◌≡◌, ◌≢◌, refl, Bool, true, false, Option, some, List, [], arith,
}
use componator_aws_providers.Go.{GoError, wrapf}
use componator_aws_providers.Go.Flow.{ok, err, rescue, continue, merge}
use componator_aws_providers.Go.Along.{
  Preorder, Along, pure-Along, stop-Along, >>=-Along, or_return-Along, catch-Along, if-Along,
}
use componator_aws_providers.Aws.{Checker, is_retryable}
use componator_aws_providers.Toolkit.{NamespacedName, ActionResult, action_result_for_error}
use componator_aws_providers.Lifecycle.{Call, is_apply, called, Reach, Reach_keeps}
use componator_aws_providers.Rds.Config.{RdsConfig, RdsStatus, resolve_spec, fill_defaults}
use componator_aws_providers.Rds.Config.Defaults.{IsAcceptable, resolve_spec-IsAcceptable}
use componator_aws_providers.Rds.Client.{DeleteDbInstanceInput, RdsClient}
use componator_aws_providers.Rds.Errors.{
  is_instance_not_found_error, is_instance_already_being_deleted_error,
}
use componator_aws_providers.Rds.Calls.{get_instance_data, delete_input, delete_instance}
use componator_aws_providers.Rds.Operations.{check_applied, delete_action, check_deleted}
use componator_aws_providers.Rds.Health.{check_health}
use componator_aws_providers.Rds.Register.{provider}

-- What the service does for an instance that is there and is not being deleted, as `there` says: a
-- deletion that asks for a final snapshot of the empty name is refused, and not because the instance
-- is missing or being deleted, and it stays there; to describe an instance does not delete it.
pub record RefusesUnnamed {W : Type 0} (client : RdsClient W) (there : W → String → Bool)
    : Type 0 where
  pub refuses :
      (c : DeleteDbInstanceInput) (id : String) (w : W)
      → c.db_instance_identifier ≡ some id
      → c.skip_final_snapshot ≡ some false
      → c.final_db_snapshot_identifier ≡ some ""
      → there w id ≡ true
      → (e : GoError) × ((client.delete_db_instance c w).0 ≡ err e)
        × (is_instance_not_found_error (some e) ≡ false)
        × (is_instance_already_being_deleted_error (some e) ≡ false)
        × (there (client.delete_db_instance c w).1 id ≡ true)
  pub describe_keeps :
      (asked : Option String) (id : String) (w : W)
      → there w id ≡ true
      → there (client.describe_db_instances asked w).1 id ≡ true

module _ {W : Type 0} (checkers : List Checker) (client : RdsClient W) (there : W → String → Bool)
    (refusing : RefusesUnnamed client there) (spec : RdsConfig) where
  -- The result is an error, and the instance is still there.
  abbrev pub IsRefused : RdsStatus → ActionResult RdsStatus × W → Type 0
  IsRefused status (r, w) =
      ((e : GoError) × (r ≡ action_result_for_error status e (is_retryable checkers)))
      × (there w spec.instance_id ≡ true)

  delete_action-IsRefused :
      (status : RdsStatus) (w : W)
      → spec.skip_final_snapshot ≢ some true
      → spec.final_db_snapshot_identifier ≡ ""
      → there w spec.instance_id ≡ true
      → IsRefused status (delete_action checkers client spec status w)
  unfolding delete_action delete_instance delete_input
  delete_action-IsRefused status w wanted unnamed h =
      let (e, refused, missing, going, stays) =
        refusing.refuses (delete_input spec) spec.instance_id w (ground arith) (ground arith)
          (ground (arith, unnamed)) h in
      rw (refused, rescue)
        (rw (missing, going, continue, merge)
          ((wrapf "delete RDS instance call failed: %w" [] e, refl), stays))

  abbrev Stays : W → W → Type 0
  Stays w w' = there w spec.instance_id ≡ true → there w' spec.instance_id ≡ true

  abbrev staying : Preorder Stays
  staying = record { same = λ w h. h; trans = λ u v w first second h. second (first h) }

  get_instance_data-Stays : (id : String) → Along Stays (get_instance_data client id)
  unfolding get_instance_data
  get_instance_data-Stays id =
      >>=-Along staying _ _
        (catch-Along staying (client.describe_db_instances _) _
          (record { run = λ w h. refusing.describe_keeps _ spec.instance_id w h })
          (λ e. if-Along _ _ _ (pure-Along staying _) (stop-Along staying _)))
        (λ found. pure-Along staying _)

  checks-Stays :
      (status : RdsStatus) (w : W)
      → Stays w (check_applied checkers client spec status w).1
        × Stays w (check_deleted checkers client spec status w).1
        × Stays w (check_health checkers client spec w).1
  unfolding check_applied check_deleted check_health
  checks-Stays status w =
      let run = get_instance_data-Stays spec.instance_id in
      (
        (>>=-Along staying _ _ (or_return-Along staying _ _ run) (λ i. pure-Along staying _)).run w,
        (>>=-Along staying _ _ (or_return-Along staying _ _ run) (λ i. pure-Along staying _)).run w,
        (>>=-Along staying _ _ (or_return-Along staying _ _ run) (λ i. pure-Along staying _)).run w,
      )

module _ {W : Type 0} (checkers : List Checker) (client : RdsClient W) (there : W → String → Bool)
    (refusing : RefusesUnnamed client there) (provider_name : String) (name : NamespacedName)
    (spec : RdsConfig) (wanted : spec.skip_final_snapshot ≢ some true)
    (unnamed : spec.final_db_snapshot_identifier ≡ "") where
  called-Stays :
      (k : Call)
      → is_apply k ≡ false
      → (s : RdsStatus) (w : W)
      → Stays checkers client there refusing spec w
          (called name spec (provider checkers client provider_name) k (s, w)).1
  called-Stays Call.apply a s w = cc
  called-Stays Call.apply_check a s w = (checks-Stays checkers client there refusing spec s w).0
  called-Stays Call.delete a s w =
      λ h. (delete_action-IsRefused checkers client there refusing spec s w wanted unnamed h).1
  called-Stays Call.delete_check a s w = (checks-Stays checkers client there refusing spec s w).1
  called-Stays Call.health_check a s w = (checks-Stays checkers client there refusing spec s w).2

  -- For a configuration that is accepted, wants a final snapshot and has no name for it, an instance
  -- that is there is never deleted: after any calls of the handlers but `applyAction`, in any order,
  -- with their statuses stored or lost, as long as nobody else deletes it, `deleteAction` gives an
  -- error, and the instance is still there. The service is taken to refuse a final snapshot of the
  -- empty name.
  pub Reach-IsRefused :
      (x y : RdsStatus × W)
      → IsAcceptable spec
      → there x.1 spec.instance_id ≡ true
      → Reach
          (provider checkers client provider_name)
          name
          spec
          (Stays checkers client there refusing spec)
          (λ k. is_apply k ≡ false)
          x
          y
      → (resolve_spec spec ≡ ok (fill_defaults spec))
        × IsRefused checkers client there refusing spec y.0
            (delete_action checkers client spec y.0 y.1)
  Reach-IsRefused x y acceptable h r =
      let kept =
        Reach_keeps _ name spec _ _ (λ z. there z.1 spec.instance_id ≡ true)
          (λ k a z g. (called-Stays k a z.0 z.1 g, called-Stays k a z.0 z.1 g)) (λ s w w' o g. o g)
          r h in
      (
        (resolve_spec-IsAcceptable spec (fill_defaults spec)).1 (acceptable, refl),
        delete_action-IsRefused checkers client there refusing spec y.0 y.1 wanted unnamed kept,
      )
