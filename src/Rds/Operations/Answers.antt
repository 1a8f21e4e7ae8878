-- ===== src/Rds/Operations/Answers.antt =====
-- The ARN of the managed password's secret in what RDS answers.
use componator_aws_providers.Prelude.{
  String, ◌≡◌, refl, ap, ◌∙◌, ◌≢◌, inl, inr, Option, none, some, List, [], ◌∷◌, All, Option-cases,
  Bool-cases,
}
use componator_aws_providers.Go.{GoError}
use componator_aws_providers.Go.Flow.{Result, ok, err, rescue, continue, Result-cases}
use componator_aws_providers.Rds.Config.{RdsConfig, RdsStatus}
use componator_aws_providers.Rds.Client.{
  MasterUserSecret, DbInstance, CreateDbInstanceInput, ModifyDbInstanceInput, DeleteDbInstanceInput,
  RdsClient,
}
use componator_aws_providers.Rds.Conversion.{string_ptr}
use componator_aws_providers.Rds.Errors.{
  is_instance_not_found_error, is_instance_already_being_deleted_error,
}
use componator_aws_providers.Rds.Calls.{
  create_input, modify_input, delete_input, first, secret_or, get_instance_data, create_instance,
  modify_instance, delete_instance, update_status_from_instance,
}
use componator_aws_providers.Rds.Operations.{capture_secret}

-- The ARN is not lost from `old` to `new`.
abbrev pub KeepsSecret : RdsStatus → RdsStatus → Type 0
KeepsSecret old new = old.master_user_secret_arn ≢ "" → new.master_user_secret_arn ≢ ""

-- A secret of the instance has no empty ARN.
abbrev pub IsNamed : DbInstance → Type 0
IsNamed i = (s : MasterUserSecret) → i.master_user_secret ≡ some s → s.secret_arn ≢ some ""

abbrev pub IsNamed? : Option DbInstance → Type 0
IsNamed? none = Unit
IsNamed? (some i) = IsNamed i

-- What the provider relies on of the RDS client: no answer names a secret by the empty text.
pub record NamesSecrets {W : Type 0} (client : RdsClient W) : Type 0 where
  pub described :
      (id : Option String) (w : W) (is : List DbInstance)
      → (client.describe_db_instances id w).0 ≡ ok is
      → All IsNamed is
  pub created :
      (c : CreateDbInstanceInput) (w : W) (i : DbInstance)
      → (client.create_db_instance c w).0 ≡ ok i
      → IsNamed i
  pub modified :
      (c : ModifyDbInstanceInput) (w : W) (i : Option DbInstance)
      → (client.modify_db_instance c w).0 ≡ ok i
      → IsNamed? i
  pub deleted :
      (c : DeleteDbInstanceInput) (w : W) (i : Option DbInstance)
      → (client.delete_db_instance c w).0 ≡ ok i
      → IsNamed? i

secret_or-nonempty :
    (old : String) (m : Option MasterUserSecret)
    → old ≢ ""
    → ((s : MasterUserSecret) → m ≡ some s → s.secret_arn ≢ some "")
    → secret_or old m ≢ ""
secret_or-nonempty old none n named = n
secret_or-nonempty old (some s) n named = λ e. elim (Option-cases s.secret_arn) [
  | inl a ↦ n (simp a at e)
  | inr (arn, a) ↦ named s refl (a ∙ ap some (simp a at e))
]

pub update-KeepsSecret :
    (status : RdsStatus) (i : Option DbInstance)
    → IsNamed? i
    → KeepsSecret status (update_status_from_instance status i)
unfolding update_status_from_instance
update-KeepsSecret status none named n = n
update-KeepsSecret status (some i) named n =
    secret_or-nonempty status.master_user_secret_arn i.master_user_secret n named

pub captured :
    (status : RdsStatus) (i : DbInstance)
    → IsNamed i
    → KeepsSecret status
        (capture_secret (update_status_from_instance status (some i)) i.master_user_secret)
captured status i named n =
    secret_or-nonempty _ i.master_user_secret (update-KeepsSecret status (some i) named n) named

first-IsNamed? : (is : List DbInstance) → All IsNamed is → IsNamed? (first is)
first-IsNamed? [] all = tt
first-IsNamed? (i ∷ is) all = all.0

module _ {W : Type 0} (client : RdsClient W) (names : NamesSecrets client) where
  abbrev pub Answer : Result GoError (Option DbInstance) → Type 0
  Answer (err e) = Unit
  Answer (ok i) = IsNamed? i

  pub found-Answer : (id : String) (w : W) → Answer (get_instance_data client id w).0
  unfolding get_instance_data
  found-Answer id w = elim (Result-cases (client.describe_db_instances (string_ptr id) w).0) [
    | inr (is, e) ↦
        rw (e, rescue, continue) (first-IsNamed? is (names.described (string_ptr id) w is e))
    | inl (x, e) ↦ elim (Bool-cases (is_instance_not_found_error (some x))) [
      | inl missing ↦ rw (e, rescue, continue, missing) tt
      | inr other ↦ rw (e, rescue, continue, other) tt
    ]
  ]

  pub deleted-Answer : (spec : RdsConfig) (w : W) → Answer (delete_instance client spec w).0
  unfolding delete_instance
  deleted-Answer spec w = elim (Result-cases (client.delete_db_instance (delete_input spec) w).0) [
    | inr (i, e) ↦ rw (e, rescue, continue) (names.deleted (delete_input spec) w i e)
    | inl (x, e) ↦ elim (Bool-cases (is_instance_not_found_error (some x))) [
      | inl missing ↦ rw (e, rescue, continue, missing) tt
      | inr other ↦ elim (Bool-cases (is_instance_already_being_deleted_error (some x))) [
        | inl going ↦ rw (e, rescue, continue, other, going) tt
        | inr failure ↦ rw (e, rescue, continue, other, failure) tt
      ]
    ]
  ]

  pub modified-Answer : (spec : RdsConfig) (w : W) → Answer (modify_instance client spec w).0
  unfolding modify_instance
  modified-Answer spec w = elim (Result-cases (client.modify_db_instance (modify_input spec) w).0) [
    | inr (i, e) ↦ rw (e, rescue) (names.modified (modify_input spec) w i e)
    | inl (x, e) ↦ rw (e, rescue) tt
  ]

  pub created-IsNamed :
      (spec : RdsConfig) (w : W) (i : DbInstance)
      → (create_instance client spec w).0 ≡ ok i
      → IsNamed i
  unfolding create_instance
  created-IsNamed spec w i h =
      elim (Result-cases (client.create_db_instance (create_input spec) w).0) [
        | inr (j, e) ↦ names.created (create_input spec) w i (e ∙ (rw (e, rescue) at h))
        | inl (x, e) ↦ cc (rw (e, rescue) at h)
      ]
