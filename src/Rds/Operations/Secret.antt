-- ===== src/Rds/Operations/Secret.antt =====
-- The ARN of the managed password's secret in the status.
use componator_aws_providers.Prelude.{String, ◌≡◌, inl, inr, Option, none, some, List, arith}
use componator_aws_providers.Go.Flow.{rescue, continue, merge, body, Result-cases}
use componator_aws_providers.Aws.{Checker}
use componator_aws_providers.Toolkit.{action_status, check_status}
use componator_aws_providers.Rds.Config.{RdsConfig, RdsStatus, resolve_spec}
use componator_aws_providers.Rds.Client.{DbInstance, RdsClient}
use componator_aws_providers.Rds.Calls.{
  get_instance_data, create_instance, modify_instance, delete_instance, update_status_from_instance,
}
use componator_aws_providers.Rds.Operations.{
  applied_result, deletion_result, deleted_result, apply_branch, apply_validated, apply_action,
  applied_by_status, check_applied, delete_action, deleted_by_status, check_deleted,
}
use componator_aws_providers.Rds.Operations.Answers.{
  KeepsSecret, IsNamed?, NamesSecrets, update-KeepsSecret, captured, found-Answer, deleted-Answer,
  modified-Answer, created-IsNamed,
}

module _ {W : Type 0} (checkers : List Checker) (client : RdsClient W)
    (names : NamesSecrets client) where
  apply_branch-KeepsSecret :
      (spec : RdsConfig) (status : RdsStatus) (existing : Option DbInstance) (w : W)
      → KeepsSecret status
          (action_status (body (apply_branch checkers client spec status existing) w).0)
  unfolding apply_branch
  apply_branch-KeepsSecret spec status (some i) w =
      elim (Result-cases (modify_instance client spec w).0) [
        | inl (e, h) ↦ rw (h, rescue, continue, merge) (λ n. n)
        | inr (i', h) ↦
            rw (h, rescue, continue, merge)
              (update-KeepsSecret status i' (rw h at (modified-Answer client names spec w)))
      ]
  apply_branch-KeepsSecret spec status none w =
      elim (Result-cases (create_instance client spec w).0) [
        | inl (e, h) ↦ rw (h, rescue, continue, merge) (λ n. n)
        | inr (i, h) ↦
            rw (h, rescue, continue, merge)
              (captured status i (created-IsNamed client names spec w i h))
      ]

  apply_action-KeepsSecret :
      (spec : RdsConfig) (status : RdsStatus) (w : W)
      → KeepsSecret status (action_status (apply_action checkers client spec status w).0)
  unfolding apply_action
  apply_action-KeepsSecret spec status w = elim (Result-cases (resolve_spec spec)) [
    | inl (e, h) ↦ rw (h, apply_validated) (λ n. n)
    | inr (spec', h) ↦ elim (Result-cases (get_instance_data client spec'.instance_id w).0) [
      | inl (e, g) ↦ rw (h, apply_validated) (rw (g, rescue, continue, merge) (λ n. n))
      | inr (i, g) ↦
          rw (h, apply_validated)
            (rw (g, rescue, continue, merge) (apply_branch-KeepsSecret spec' status i _))
    ]
  ]

  applied-same :
      (id : String) (s : RdsStatus) → check_status (applied_by_status checkers client id s) ≡ s
  unfolding applied_by_status
  applied-same id s = ground arith

  deleted-same :
      (id : String) (s : RdsStatus) → check_status (deleted_by_status checkers client id s) ≡ s
  unfolding deleted_by_status
  deleted-same id s = ground arith

  check_applied-KeepsSecret :
      (spec : RdsConfig) (status : RdsStatus) (w : W)
      → KeepsSecret status (check_status (check_applied checkers client spec status w).0)
  unfolding check_applied
  check_applied-KeepsSecret spec status w =
      let answer = found-Answer client names spec.instance_id w in
      elim (Result-cases (get_instance_data client spec.instance_id w).0) [
        | inl (e, h) ↦ rw (h, rescue, continue, merge) (λ n. n)
        | inr (i, h) ↦ rw (h, rescue, continue, merge) (applied i (rw h at answer))
      ]
    where
      applied :
          (i : Option DbInstance)
          → IsNamed? i
          → KeepsSecret status (check_status (applied_result checkers client spec status i))
      applied none named n = n
      applied (some i) named n =
          rw (applied-same spec.instance_id (update_status_from_instance status (some i)))
            (update-KeepsSecret status (some i) named n)

  delete_action-KeepsSecret :
      (spec : RdsConfig) (status : RdsStatus) (w : W)
      → KeepsSecret status (action_status (delete_action checkers client spec status w).0)
  unfolding delete_action
  delete_action-KeepsSecret spec status w =
      let answer = deleted-Answer client names spec w in
      elim (Result-cases (delete_instance client spec w).0) [
        | inl (e, h) ↦ rw (h, rescue, continue, merge) (λ n. n)
        | inr (i, h) ↦ rw (h, rescue, continue, merge) (deleted i (rw h at answer))
      ]
    where
      deleted :
          (i : Option DbInstance)
          → IsNamed? i
          → KeepsSecret status (action_status (deletion_result checkers client spec status i))
      deleted none named n = n
      deleted (some i) named n = update-KeepsSecret status (some i) named n

  check_deleted-KeepsSecret :
      (spec : RdsConfig) (status : RdsStatus) (w : W)
      → KeepsSecret status (check_status (check_deleted checkers client spec status w).0)
  unfolding check_deleted
  check_deleted-KeepsSecret spec status w =
      elim (Result-cases (get_instance_data client spec.instance_id w).0) [
        | inl (e, h) ↦ rw (h, rescue, continue, merge) (λ n. n)
        | inr (i, h) ↦ rw (h, rescue, continue, merge) (found i)
      ]
    where
      found :
          (i : Option DbInstance)
          → KeepsSecret status (check_status (deleted_result checkers client spec status i))
      found none n = n
      found (some i) n = rw (deleted-same spec.instance_id _) n

  -- No handler of the provider loses the ARN of the managed password's secret: in every result,
  -- errors included, the status names a secret if it named one before. The service is assumed not
  -- to name a secret by the empty text.
  pub handlers-KeepsSecret :
      (spec : RdsConfig) (status : RdsStatus) (w : W)
      → KeepsSecret status (action_status (apply_action checkers client spec status w).0)
        × KeepsSecret status (check_status (check_applied checkers client spec status w).0)
        × KeepsSecret status (action_status (delete_action checkers client spec status w).0)
        × KeepsSecret status (check_status (check_deleted checkers client spec status w).0)
  handlers-KeepsSecret spec status w = (
    apply_action-KeepsSecret spec status w,
    check_applied-KeepsSecret spec status w,
    delete_action-KeepsSecret spec status w,
    check_deleted-KeepsSecret spec status w,
  )
