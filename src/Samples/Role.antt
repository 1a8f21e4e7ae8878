-- ===== src/Samples/Role.antt =====
-- The theorems on the IAM role provider, at a service that keeps the list of the attached policies.
use componator_aws_providers.Prelude.{
  String, ◌≡◌, refl, ap, sym, inr, ◌∙◌, ◌↔◌, Bool, true, false, Option, none, some, List, [], ◌∷◌,
  map, length, not, ◌&&◌, ◌==◌, arith, if◌then◌else◌,
}
use componator_aws_providers.Prelude.Int.{pos}
use componator_aws_providers.Prelude.Texts.{
  mem, insert, erase, set_of, mem-set_of, set_of-IsNodup, mem-erase,
}
use componator_aws_providers.Go.{Exception, GoError, errorf, sdk}
use componator_aws_providers.Go.Flow.{Proc, ok, err}
use componator_aws_providers.Aws.{to_string, is_not_found_error}
use componator_aws_providers.Json.{Json}
use componator_aws_providers.IamRole.Config.{
  IamRoleConfig, IamRoleStatus, resolve_spec, apply_defaults,
}
use componator_aws_providers.IamRole.Config.Resolution.{IsComplete, resolve_spec-IsComplete}
use componator_aws_providers.IamRole.Client.{Role, IamRoleClient}
use componator_aws_providers.IamRole.Attachments.{IsLawful, Answers}
use componator_aws_providers.IamRole.Calls.{detach_policy}
use componator_aws_providers.IamRole.Reconcile.{
  result_of, detach_loop, detach_failure, reconcile_policy_attachments,
}
use componator_aws_providers.IamRole.Reconcile.Exact.{
  Reconciled, reconcile-Reconciled, reconcile_unchanged,
}
use componator_aws_providers.IamRole.Reconcile.Counts.{Overcounted, detach_loop-Overcounted}
use componator_aws_providers.IamRole.Operations.{apply_action, detach_all}
use componator_aws_providers.IamRole.Operations.Applied.{Applied, apply_action-Applied}
use componator_aws_providers.IamRole.Operations.Deleted.{detach_all-nothing_attached}

-- The only JSON text is the empty object.
abbrev pub json : Json
json = record {
  Value = String;
  unmarshal = λ s. if s == "{}" then some s else none;
  valid = λ s. s == "{}";
  deep_equal = λ a b. a == b;
}

abbrev pub admin : Role
admin = record {
  arn = some "arn:admin";
  role_id = some "id";
  role_name = some "admin";
  assume_role_policy_document = some "{}";
}

abbrev refused : GoError
refused = errorf "refused" []

abbrev detach : Bool → String → Proc (List String) GoError (Unit {0})
detach true p w = (err refused, w)
detach false p w = (ok tt, erase p w)

-- The policy "locked" cannot be detached.
abbrev pub service : IamRoleClient (List String)
service = record {
  get_role = λ r w. (ok (some admin), w);
  create_role = λ c w. (ok admin, w);
  update_assume_role_policy = λ r d w. (ok tt, w);
  list_attached_role_policies = λ r w. (ok (map some (set_of [] w)), w);
  attach_role_policy = λ r p w. (ok tt, p ∷ w);
  detach_role_policy = λ r p w. detach (p == "locked") p w;
  delete_role = λ r w. (ok tt, w);
}

abbrev pub attached : List String → String → String → Bool
attached w r a = mem a w

strings_of_pointers : (xs : List String) → map to_string (map some xs) ≡ xs
strings_of_pointers [] = refl
strings_of_pointers (x ∷ xs) = ap (◌∷◌ x) (strings_of_pointers xs)

listed_strings :
    (r : String) (w : List String) (out : List (Option String))
    → (service.list_attached_role_policies r w).0 ≡ ok out
    → map to_string out ≡ set_of [] w
listed_strings r w out h =
    let same : map some (set_of [] w) ≡ out = cc in
    ap (map to_string) (sym same) ∙ strings_of_pointers (set_of [] w)

detach_ok :
    (b : Bool) (p : String) (w : List String)
    → (detach b p w).0 ≡ ok tt
    → (a : String) → mem a (detach b p w).1 ≡ (not (p == a) && mem a w)
detach_ok true p w h a = cc
detach_ok false p w h a = mem-erase a p w

detach_err :
    (b : Bool) (p : String) (w : List String) (e : GoError)
    → (detach b p w).0 ≡ err e
    → (a : String) → mem a (detach b p w).1 ≡ mem a w
detach_err true p w e h a = refl
detach_err false p w e h a = cc

pub service-IsLawful : IsLawful service attached
unfolding mem
service-IsLawful = record {
  listed = λ r w out h a. ap (mem a) (listed_strings r w out h) ∙ mem-set_of a [] w;
  listed_nodup = λ r w out h. rw (listed_strings r w out h) (set_of-IsNodup [] w tt);
  list_keeps = λ r w a. refl;
  attach_done = λ r p w h a. refl;
  attach_failed = λ r p w e h a. cc;
  detach_done = λ r p w h a. detach_ok (p == "locked") p w h a;
  detach_failed = λ r p w e h a. detach_err (p == "locked") p w e h a;
}

reconcile-Reconciled_example :
    Reconciled service attached service-IsLawful "admin"
      ("b" ∷ "c" ∷ [])
      ("a" ∷ "b" ∷ [])
      (reconcile_policy_attachments service "admin" ("b" ∷ "c" ∷ []) ("a" ∷ "b" ∷ []))
reconcile-Reconciled_example =
    reconcile-Reconciled service attached service-IsLawful "admin" ("b" ∷ "c" ∷ []) ("a" ∷ "b" ∷ [])

reconcile_unchanged_example :
    reconcile_policy_attachments service "admin" ("a" ∷ "b" ∷ []) ("b" ∷ "a" ∷ [])
    ≡ (ok (result_of (set_of [] ("a" ∷ "b" ∷ [])) (pos 0) (pos 0)), "b" ∷ "a" ∷ [])
unfolding set_of insert mem
reconcile_unchanged_example =
    reconcile_unchanged service attached service-IsLawful "admin" ("a" ∷ "b" ∷ []) ("b" ∷ "a" ∷ [])
      (some "a" ∷ some "b" ∷ []) refl (λ a. ground arith)

detach_loop-Overcounted_example :
    Overcounted service attached service-IsLawful "admin"
      ("a" ∷ "locked" ∷ [])
      ("a" ∷ "locked" ∷ [])
      (detach_loop service "admin"
        (detach_failure ("a" ∷ "locked" ∷ []) ("a" ∷ "locked" ∷ []))
        ("a" ∷ "locked" ∷ [])
        (set_of [] ("a" ∷ "locked" ∷ []))
        ("a" ∷ "locked" ∷ []))
unfolding set_of insert mem
detach_loop-Overcounted_example =
    detach_loop-Overcounted service attached service-IsLawful "admin" ("a" ∷ "locked" ∷ [])
      ("a" ∷ "locked" ∷ []) ("a" ∷ "locked" ∷ [])
      (record { members = λ a. ground arith; nodup = (refl, (refl, tt)) }) (refl, (refl, tt))
      (refl, (refl, tt)) (refl, (refl, tt))

abbrev pub spec : IamRoleConfig
spec = record {
  role_name = "admin";
  assume_role_policy = "{}";
  description = "";
  max_session_duration = pos 0;
  path = "";
  managed_policy_arns = "c" ∷ "b" ∷ "c" ∷ [];
  tags = [];
}

abbrev pub no_status : IamRoleStatus
no_status = record { role_arn = ""; role_id = ""; role_name = ""; attached_policies = [] }

resolve_spec-IsComplete_example :
    (resolve_spec json spec ≡ ok (apply_defaults spec))
    ↔ (IsComplete json spec × (apply_defaults spec ≡ apply_defaults spec))
resolve_spec-IsComplete_example = resolve_spec-IsComplete json spec (apply_defaults spec)

apply_action-Applied_example :
    Applied json [] service attached service-IsLawful "admin"
      ("c" ∷ "b" ∷ "c" ∷ [])
      (apply_action json [] service spec no_status ("a" ∷ "b" ∷ []))
apply_action-Applied_example =
    apply_action-Applied json [] service attached service-IsLawful spec no_status ("a" ∷ "b" ∷ [])

detach_all-nothing_attached_example :
    ((a : String)
      → mem a (detach_all json [] service spec no_status ("b" ∷ "a" ∷ []) 0 ("a" ∷ "b" ∷ [])).1
        ≡ false)
    × (2 ≡ length {A = String} ("b" ∷ "a" ∷ []))
unfolding set_of insert mem detach_all detach_policy erase
detach_all-nothing_attached_example =
    detach_all-nothing_attached json [] service attached service-IsLawful spec no_status
      ("a" ∷ "b" ∷ []) (some "b" ∷ some "a" ∷ []) 2 refl refl

abbrev no_role : GoError
no_role = sdk (record { exception = Exception.no_such_entity; message = ""; code = "" })

-- A service that refuses nothing, and that has no role yet.
abbrev pub willing : IamRoleClient (List String)
willing = record service {
  get_role = λ r w. (err no_role, w);
  detach_role_policy = λ r p w. (ok tt, erase p w);
}

pub willing-IsLawful : IsLawful willing attached
unfolding mem
willing-IsLawful = record {
  listed = λ r w out h a. ap (mem a) (listed_strings r w out h) ∙ mem-set_of a [] w;
  listed_nodup = λ r w out h. rw (listed_strings r w out h) (set_of-IsNodup [] w tt);
  list_keeps = λ r w a. refl;
  attach_done = λ r p w h a. refl;
  attach_failed = λ r p w e h a. cc;
  detach_done = λ r p w h a. mem-erase a p w;
  detach_failed = λ r p w e h a. cc;
}

pub willing-Answers : Answers willing
unfolding is_not_found_error
willing-Answers = record {
  gets = λ r w. inr (no_role, refl, refl);
  creates = λ c w. (admin, refl);
  updates = λ r d w. refl;
  lists = λ r w. (map some (set_of [] w), refl);
  attaches = λ r p w. refl;
  detaches = λ r p w. refl;
}
