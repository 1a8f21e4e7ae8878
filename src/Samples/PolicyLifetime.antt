-- ===== src/Samples/PolicyLifetime.antt =====
-- The theorems on the calls of a controller for a policy, at short runs.
use componator_aws_providers.Prelude.{
  ℕ, suc, String, ◌≡◌, refl, inr, Bool, true, false, Option, none, some, [], ◌∷◌, arith, eq_iff,
}
use componator_aws_providers.Go.{Exception, GoError, Message, text, str, sdk}
use componator_aws_providers.Go.Flow.{Result, ok, err}
use componator_aws_providers.Toolkit.{NamespacedName, action_success, is_in_progress}
use componator_aws_providers.Lifecycle.{Provider, Call, called, stored, lost, here, next}
use componator_aws_providers.IamPolicy.Config.{IamPolicyConfig, IamPolicyStatus, resolve_spec}
use componator_aws_providers.IamPolicy.Client.{Policy, IamPolicyClient}
use componator_aws_providers.IamPolicy.Documents.{PutsInEffect, Agrees}
use componator_aws_providers.IamPolicy.Existence.{KnowsPolicies}
use componator_aws_providers.IamPolicy.Calls.{
  find_policy, get_policy_by_name, get_policy_by_arn, delete_policy,
}
use componator_aws_providers.IamPolicy.Versions.{
  delete_oldest_policy_version, get_current_policy_document, create_policy_version, delete_versions,
  delete_policy_all_versions,
}
use componator_aws_providers.Json.{json_equals}
use componator_aws_providers.IamPolicy.Operations.{
  apply_branch, apply_resolved, apply_action, delete_branch, delete_action, check_deleted,
}
use componator_aws_providers.IamPolicy.Register as IamPolicy
use componator_aws_providers.IamPolicy.Lifetime.{Reach-Agrees, Reach-deleted}
use componator_aws_providers.IamPolicy.Operations.Made.{
  EncodesDocuments, apply_action_makes_versions,
}
use componator_aws_providers.Samples.Policy as Samples

keeper-PutsInEffect : PutsInEffect Samples.keeper Samples.effective
keeper-PutsInEffect = record {
  creates = λ c arn w. inr refl;
  versions = λ c arn w. inr refl;
  list_keeps = λ path arn w. refl;
  get_keeps = λ id arn w. refl;
  list_versions_keeps = λ id arn w. refl;
  get_version_keeps = λ id version arn w. refl;
  delete_version_keeps = λ id version arn w. refl;
}

abbrev component : NamespacedName
component = record { namespace = "ns"; name = "component" }

abbrev keeper_provider : Provider String IamPolicyConfig IamPolicyStatus
keeper_provider = IamPolicy.provider Samples.json [] Samples.keeper "iam-policy"

-- The policy is applied, and the status is kept; then it is checked, and applied once more with the
-- status lost.
abbrev after_apply : IamPolicyStatus × String
after_apply = called component Samples.spec keeper_provider Call.apply (Samples.no_status, "old")

applied_first :
    (m : Message) × ((apply_action Samples.json [] Samples.keeper Samples.spec Samples.no_status
        "old").0
      ≡ action_success after_apply.0 m)
unfolding resolve_spec apply_action apply_resolved apply_branch get_policy_by_name find_policy
    create_policy_version get_current_policy_document get_policy_by_arn json_equals
    delete_oldest_policy_version
applied_first = (_, refl)

abbrev after_check : IamPolicyStatus × String
after_check = called component Samples.spec keeper_provider Call.apply_check after_apply

abbrev after_second_apply : IamPolicyStatus × String
after_second_apply =
    (after_check.0, (called component Samples.spec keeper_provider Call.apply after_check).1)

Reach-Agrees_example : Agrees Samples.json after_second_apply.1 "{}"
Reach-Agrees_example =
    Reach-Agrees Samples.json [] Samples.keeper Samples.effective keeper-PutsInEffect "iam-policy"
      component Samples.spec Samples.url_encoded Samples.keeper-KeepsDocuments Samples.no_status
      after_apply.0 applied_first.0 "old" applied_first.1 after_second_apply
      (next (next here (stored Call.apply_check refl after_apply))
        (lost Call.apply refl after_check))

-- A service that counts the versions that were made, and that gives the document in the URL encoding.
abbrev counter : IamPolicyClient ℕ
counter = record {
  list_policies = λ path w. (ok (Samples.policy ∷ []), w);
  get_policy = λ arn w. (ok (some Samples.policy), w);
  create_policy = λ c w. (ok Samples.policy, suc w);
  create_policy_version = λ c w. (ok (some "v2"), suc w);
  list_policy_versions = λ arn w. (ok [], w);
  get_policy_version = λ arn id w. (ok (some "%7B%7D"), w);
  delete_policy_version = λ arn id w. (ok tt, w);
  delete_policy = λ arn w. (ok tt, w);
}

counter-EncodesDocuments : EncodesDocuments Samples.json counter (λ w. w)
counter-EncodesDocuments = record {
  created = λ c w p h. refl;
  versioned = λ c w id h. refl;
  encoded = λ arn id w d h. let same : some "%7B%7D" ≡ d = cc in rw (← same) refl;
  reads = record {
    list = λ path. record { run = λ w. refl };
    get = λ arn. record { run = λ w. refl };
    list_versions = λ arn. record { run = λ w. refl };
    get_version = λ arn id. record { run = λ w. refl };
    delete_version = λ arn id. record { run = λ w. refl };
  };
}

abbrev counted : IamPolicyStatus × ℕ → IamPolicyStatus × ℕ
counted =
    called component Samples.spec (IamPolicy.provider Samples.json [] counter "iam-policy")
      Call.apply

abbrev once : IamPolicyStatus × ℕ
once = counted (Samples.no_status, 1)

applied_with :
    (s : IamPolicyStatus) (w : ℕ)
    → (m : Message) × ((apply_action Samples.json [] counter Samples.spec s w).0
        ≡ action_success (counted (s, w)).0 m)
unfolding resolve_spec apply_action apply_resolved apply_branch get_policy_by_name find_policy
    create_policy_version get_current_policy_document get_policy_by_arn json_equals
    delete_oldest_policy_version
applied_with s w = (_, refl)

apply_action_makes_versions_example : (once.1 ≡ 2) × ((counted once).1 ≡ 3)
apply_action_makes_versions_example =
    apply_action_makes_versions Samples.json counter (λ w. w) counter-EncodesDocuments []
      Samples.spec Samples.no_status once.0 (counted once).0 (applied_with Samples.no_status 1).0
      (applied_with once.0 once.1).0 1 (applied_with Samples.no_status 1).1
      (applied_with once.0 once.1).1

-- A service with one policy or none: the world is the document in effect, if the policy is there.
abbrev Account : Type 0
Account = Option String

abbrev exists : Account → String → Bool
exists none arn = false
exists (some document) arn = true

abbrev no_policy : GoError
no_policy = sdk (record { exception = Exception.no_such_entity; message = ""; code = "" })

abbrev get : Account → Result GoError (Option Policy)
get none = err no_policy
get (some document) = ok (some Samples.policy)

abbrev account : IamPolicyClient Account
account = record {
  list_policies = λ path w. (ok [], w);
  get_policy = λ arn w. (get w, w);
  create_policy = λ c w. (ok Samples.policy, some c.policy_document);
  create_policy_version = λ c w. (ok (some "v2"), some c.policy_document);
  list_policy_versions = λ arn w. (ok [], w);
  get_policy_version = λ arn id w. (ok w, w);
  delete_policy_version = λ arn id w. (ok tt, w);
  delete_policy = λ arn w. (ok tt, none);
}

account-KnowsPolicies : KnowsPolicies exists account
account-KnowsPolicies = record {
  found = λ arn w p h. found w arn h;
  absent = λ arn w h. absent w arn h;
  not_found = λ arn w e h missing. not_found w arn h;
  deleted = λ arn w h. refl;
  delete_not_found = λ arn w e h missing. refl;
  get_stays = λ arn w h. h;
  list_stays = λ arn w h. h;
  delete_version_stays = λ arn id w h. h;
  delete_stays = λ arn w h. refl;
}
  where
    found : (w : Account) {p : Policy} (arn : String) → get w ≡ ok (some p) → exists w arn ≡ true
    found none arn h = cc
    found (some document) arn h = refl

    absent : (w : Account) (arn : String) → get w ≡ ok none → exists w arn ≡ false
    absent none arn h = refl
    absent (some document) arn h = cc

    not_found : (w : Account) {e : GoError} (arn : String) → get w ≡ err e → exists w arn ≡ false
    not_found none arn h = refl
    not_found (some document) arn h = cc

abbrev account_provider : Provider Account IamPolicyConfig IamPolicyStatus
account_provider = IamPolicy.provider Samples.json [] account "iam-policy"

abbrev there : IamPolicyStatus
there = record Samples.no_status { policy_arn = "arn"; policy_name = "policy" }

-- The policy is deleted, checked for its application, and deleted once more.
abbrev after_delete : IamPolicyStatus × Account
after_delete = (there, (delete_action Samples.json [] account there (some "{}")).1)

abbrev after_wrong_check : IamPolicyStatus × Account
after_wrong_check = called component Samples.spec account_provider Call.apply_check after_delete

abbrev after_second_delete : IamPolicyStatus × Account
after_second_delete = called component Samples.spec account_provider Call.delete after_wrong_check

Reach-deleted_example :
    (exists after_second_delete.1 "arn" ≡ false)
    × (is_in_progress
          (check_deleted Samples.json [] account after_second_delete.0 after_second_delete.1).0
        ≡ false)
unfolding delete_action delete_branch get_policy_by_arn delete_policy_all_versions delete_versions
    delete_policy
Reach-deleted_example =
    Reach-deleted Samples.json [] account exists account-KnowsPolicies "iam-policy" component
      Samples.spec there there (text "Deleting policy %s" (str "policy" ∷ [])) (some "{}")
      (λ e. ground (arith, (eq_iff "arn" "").1 e)) refl after_second_delete
      (next (next here (stored Call.apply_check refl after_delete))
        (stored Call.delete refl after_wrong_check))
