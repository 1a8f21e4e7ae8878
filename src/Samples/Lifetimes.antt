-- ===== src/Samples/Lifetimes.antt =====
-- The theorems on the calls of a controller, at short runs.
use componator_aws_providers.Prelude.{
  String, ◌≡◌, refl, Bool, true, false, Option, none, some, List, [], ◌∷◌, map,
}
use componator_aws_providers.Prelude.Int.{pos}
use componator_aws_providers.Prelude.Texts.{mem, erase}
use componator_aws_providers.Go.{Exception, GoError, Message, text, str, int, sdk}
use componator_aws_providers.Go.Flow.{Result, ok, err}
use componator_aws_providers.Aws.{is_not_found_error}
use componator_aws_providers.Toolkit.{NamespacedName, action_success, is_in_progress}
use componator_aws_providers.Lifecycle.{Provider, Call, called, stored, lost, changed, here, next}
use componator_aws_providers.IamRole.Config.{
  IamRoleConfig, IamRoleStatus, apply_defaults, resolve_spec,
}
use componator_aws_providers.IamRole.Moves.{Moves, ◌≈◌}
use componator_aws_providers.IamRole.Client.{Role, IamRoleClient}
use componator_aws_providers.IamRole.Attachments.{KeepsAttachments}
use componator_aws_providers.IamRole.Existence.{KnowsRoles}
use componator_aws_providers.IamRole.Calls.{
  get_role_by_name, list_attached_policies, detach_policy, delete_role,
}
use componator_aws_providers.IamRole.Operations.{
  apply_action, check_applied, detach_all, delete_branch, delete_action, check_deleted,
}
use componator_aws_providers.IamRole.Operations.Refinement.{handlers-Moves}
use componator_aws_providers.IamRole.Operations.Success.{apply_action_succeeds}
use componator_aws_providers.IamRole.Register as IamRole
use componator_aws_providers.IamRole.Lifetime.{Reach-applied, Reach-gone}
use componator_aws_providers.Rds.Config.{RdsConfig, RdsStatus}
use componator_aws_providers.Rds.Operations.Answers.{KeepsSecret}
use componator_aws_providers.Rds.Register as Rds
use componator_aws_providers.Rds.Lifetime.{Reach-KeepsSecret}
use componator_aws_providers.Samples.Role
use componator_aws_providers.Samples.Instance

service-KeepsAttachments : KeepsAttachments Role.service Role.attached
service-KeepsAttachments = record {
  get_keeps = λ r w a. refl;
  create_keeps = λ c w a. refl;
  update_keeps = λ r d w a. refl;
  delete_keeps = λ r w a. refl;
}

willing-KeepsAttachments : KeepsAttachments Role.willing Role.attached
willing-KeepsAttachments = record {
  get_keeps = λ r w a. refl;
  create_keeps = λ c w a. refl;
  update_keeps = λ r d w a. refl;
  delete_keeps = λ r w a. refl;
}

handlers-Moves_example :
    let w : List String = "a" ∷ "b" ∷ [] in
    Moves
      (λ a. mem a Role.spec.managed_policy_arns)
      (λ a. mem a w)
      (λ a. mem a (apply_action Role.json [] Role.service Role.spec Role.no_status w).1)
    × Moves
        (λ a. false)
        (λ a. mem a w)
        (λ a. mem a (delete_action Role.json [] Role.service Role.spec Role.no_status w).1)
    × ((λ a. mem a (check_applied Role.json [] Role.service Role.spec Role.no_status w).1) ≈ λ a.
        mem a w)
    × ((λ a. mem a (check_deleted Role.json [] Role.service Role.spec Role.no_status w).1) ≈ λ a.
        mem a w)
handlers-Moves_example =
    handlers-Moves Role.json [] Role.service Role.attached Role.service-IsLawful
      service-KeepsAttachments Role.spec Role.no_status ("a" ∷ "b" ∷ [])

abbrev component : NamespacedName
component = record { namespace = "ns"; name = "component" }

abbrev role_provider : Provider (List String) IamRoleConfig IamRoleStatus
role_provider = IamRole.provider Role.json [] Role.willing "iam-role"

-- The role is applied, and the status is kept.
applied_first :
    (s : IamRoleStatus) × (m : Message) × ((apply_action Role.json [] Role.willing Role.spec
        Role.no_status
        ("a" ∷ "b" ∷ [])).0
      ≡ action_success s m)
unfolding resolve_spec
applied_first =
    let (s, m, e, exact, listed) =
      apply_action_succeeds Role.json [] Role.willing Role.willing-Answers Role.attached
        Role.willing-IsLawful Role.spec (apply_defaults Role.spec) Role.no_status ("a" ∷ "b" ∷ [])
        refl in
    (s, m, e)

abbrev after_apply : IamRoleStatus × List String
after_apply = (
  applied_first.0,
  (apply_action Role.json [] Role.willing Role.spec Role.no_status ("a" ∷ "b" ∷ [])).1,
)

-- Then it is checked, and applied once more with the status lost.
abbrev after_check : IamRoleStatus × List String
after_check = called component Role.spec role_provider Call.apply_check after_apply

abbrev after_second_apply : IamRoleStatus × List String
after_second_apply =
    (after_check.0, (called component Role.spec role_provider Call.apply after_check).1)

Reach-applied_example :
    (λ a. Role.attached after_second_apply.1 "admin" a) ≈ λ a. mem a ("c" ∷ "b" ∷ "c" ∷ [])
Reach-applied_example =
    Reach-applied Role.json [] Role.willing Role.attached Role.willing-IsLawful
      willing-KeepsAttachments "iam-role" component Role.spec Role.no_status applied_first.0
      applied_first.1 ("a" ∷ "b" ∷ []) applied_first.2 after_second_apply
      (next (next here (stored Call.apply_check refl after_apply))
        (lost Call.apply refl after_check))

-- A service with one role or none: the world is the list of the attached policies, if the role is
-- there.
abbrev no_role : GoError
no_role = sdk (record { exception = Exception.no_such_entity; message = ""; code = "" })

abbrev Account : Type 0
Account = Option (List String)

abbrev exists : Account → String → Bool
exists none r = false
exists (some policies) r = true

abbrev get : Account → Result GoError (Option Role)
get none = err no_role
get (some policies) = ok (some Role.admin)

abbrev list : Account → Result GoError (List (Option String))
list none = err no_role
list (some policies) = ok (map some policies)

abbrev without : String → Account → Account
without p none = none
without p (some policies) = some (erase p policies)

abbrev account : IamRoleClient Account
account = record {
  get_role = λ r w. (get w, w);
  create_role = λ c w. (ok Role.admin, some []);
  update_assume_role_policy = λ r d w. (ok tt, w);
  list_attached_role_policies = λ r w. (list w, w);
  attach_role_policy = λ r p w. (ok tt, w);
  detach_role_policy = λ r p w. (ok tt, without p w);
  delete_role = λ r w. (ok tt, none);
}

account-KnowsRoles : KnowsRoles exists account
unfolding is_not_found_error
account-KnowsRoles = record {
  found = λ r w role h. found w r h;
  absent = λ r w h. absent w r h;
  not_found = λ r w e h missing. not_found w r h;
  deleted = λ r w h. refl;
  delete_not_found = λ r w e h missing. refl;
  get_stays = λ r w h. h;
  list_stays = λ r w h. h;
  detach_stays = λ r p w h. detached p w r h;
  delete_stays = λ r w h. refl;
}
  where
    found : (w : Account) {role : Role} (r : String) → get w ≡ ok (some role) → exists w r ≡ true
    found none r h = cc
    found (some policies) r h = refl

    absent : (w : Account) (r : String) → get w ≡ ok none → exists w r ≡ false
    absent none r h = refl
    absent (some policies) r h = cc

    not_found : (w : Account) {e : GoError} (r : String) → get w ≡ err e → exists w r ≡ false
    not_found none r h = refl
    not_found (some policies) r h = cc

    detached :
        (p : String) (w : Account) (r : String)
        → exists w r ≡ false
        → exists (without p w) r ≡ false
    detached p none r h = refl
    detached p (some policies) r h = cc

-- The role is deleted, checked, and deleted once more.
abbrev account_provider : Provider Account IamRoleConfig IamRoleStatus
account_provider = IamRole.provider Role.json [] account "iam-role"

abbrev after_delete : IamRoleStatus × Account
after_delete = (
  Role.no_status,
  (delete_action Role.json [] account Role.spec Role.no_status (some ("a" ∷ "b" ∷ []))).1,
)

abbrev after_second_delete : IamRoleStatus × Account
after_second_delete = called component Role.spec account_provider Call.delete after_delete

Reach-gone_example :
    (exists after_second_delete.1 "admin" ≡ false)
    × (is_in_progress
          (check_deleted Role.json [] account Role.spec after_second_delete.0
            after_second_delete.1).0
        ≡ false)
unfolding delete_action delete_branch get_role_by_name list_attached_policies detach_all
    detach_policy delete_role erase
Reach-gone_example =
    Reach-gone Role.json [] account exists account-KnowsRoles "iam-role" component Role.spec
      Role.no_status Role.no_status
      (text "Deleting role %s (detached %d policies)" (str "admin" ∷ int (pos 2) ∷ []))
      (some ("a" ∷ "b" ∷ [])) refl after_second_delete
      (next here (stored Call.delete refl after_delete))

abbrev rds_provider : Provider (Unit {0}) RdsConfig RdsStatus
rds_provider = Rds.provider [] Instance.running "rds"

abbrev NoOthers : Unit {0} → Unit {0} → Type 0
NoOthers w w' = Unit

abbrev AllCalls : Call → Type 0
AllCalls k = Unit

abbrev after_modify : RdsStatus × Unit {0}
after_modify = called component Instance.spec rds_provider Call.apply (Instance.status_of "", tt)

Reach-KeepsSecret_example :
    KeepsSecret
      (Instance.status_of "")
      (called component Instance.spec rds_provider Call.delete after_modify).0
Reach-KeepsSecret_example =
    Reach-KeepsSecret [] Instance.running Instance.running-NamesSecrets "rds" component
      Instance.spec NoOthers AllCalls (Instance.status_of "", tt)
      (called component Instance.spec rds_provider Call.delete after_modify)
      (next
        (next (next here (stored Call.apply tt (Instance.status_of "", tt)))
          (changed after_modify.0 tt tt tt))
        (stored Call.delete tt after_modify))
