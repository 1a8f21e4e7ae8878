-- ===== src/Samples/Policy.antt =====
-- The theorems on the IAM policy provider, at three services.
use componator_aws_providers.Prelude.{
  inl, inr, ◌↔◌, false, ℕ, suc, ◌≤◌, String, ◌≡◌, refl, ap, sym, Bool, true, false, Option, none,
  some, List, [], ◌∷◌, map, length, ◌==◌, All, arith, eq_refl, if◌then◌else◌, Bool-cases,
}
use componator_aws_providers.Prelude.Texts.{mem, erase, mem-erase}
use componator_aws_providers.Go.{GoError, errorf}
use componator_aws_providers.Go.Flow.{Proc, ok, err}
use componator_aws_providers.Aws.{to_string}
use componator_aws_providers.Json.{Json, json_equals}
use componator_aws_providers.IamPolicy.Config.{
  IamPolicyConfig, IamPolicyStatus, apply_defaults, resolve_spec,
}
use componator_aws_providers.IamPolicy.Config.Resolution.{IsWellFormed, resolve_spec-IsWellFormed}
use componator_aws_providers.IamPolicy.Client.{Policy, PolicyVersion, IamPolicyClient}
use componator_aws_providers.IamPolicy.Versions.{
  max_number_of_policy_versions, oldest_version, delete_oldest_policy_version, new_version,
  delete_policy_all_versions,
}
use componator_aws_providers.IamPolicy.Versions.Oldest.{Among, IsOldest, oldest_version-IsOldest}
use componator_aws_providers.IamPolicy.Versions.Limit.{
  CountsVersions, HasRoom, delete_oldest-HasRoom,
}
use componator_aws_providers.IamPolicy.Documents.{KeepsDocuments}
use componator_aws_providers.IamPolicy.Operations.{apply_action}
use componator_aws_providers.IamPolicy.Operations.Applied.{
  AppliedDocument, apply_action-AppliedDocument,
}
use componator_aws_providers.IamPolicy.Versions.Room.{Serves, new_version_succeeds}
use componator_aws_providers.IamPolicy.Versions.Removal.{
  RemovesVersions, RemovedAll, delete_policy_all_versions-RemovedAll,
}

abbrev refused : GoError
refused = errorf "refused" []

abbrev version : String → Bool → ℕ → PolicyVersion
version id default date = record {
  version_id = some id;
  is_default_version = default;
  create_date = date;
}

abbrev pub policy : Policy
policy = record {
  arn = some "arn:policy";
  policy_id = some "id";
  policy_name = some "policy";
  default_version_id = some "v1";
}

-- A service with one policy, by its versions, their deletion and the document that it gives.
abbrev service :
    {W : Type 0}
    → (W → List PolicyVersion)
    → (Option String → Proc W GoError (Unit {0}))
    → String
    → IamPolicyClient W
service versions delete document = record {
  list_policies = λ path w. (ok (policy ∷ []), w);
  get_policy = λ arn w. (ok (some policy), w);
  create_policy = λ c w. (ok policy, w);
  create_policy_version = λ c w. (ok (some "v2"), w);
  list_policy_versions = λ arn w. (ok (versions w), w);
  get_policy_version = λ arn id w. (ok (some document), w);
  delete_policy_version = λ arn id w. delete id w;
  delete_policy = λ arn w. (ok tt, w);
}

-- A policy has one to five versions, and a deletion takes one away until one is left.
data Shelf : Type 0 where
  one : Shelf
  two : Shelf
  three : Shelf
  four : Shelf
  full : Shelf

-- The last versions of a policy.
abbrev last_two : List PolicyVersion
last_two = version "v4" false 40 ∷ version "v5" true 50 ∷ []

abbrev last_three : List PolicyVersion
last_three = version "v3" false 30 ∷ last_two

abbrev last_four : List PolicyVersion
last_four = version "v2" false 20 ∷ last_three

abbrev versions_of : Shelf → List PolicyVersion
versions_of one = version "v5" true 50 ∷ []
versions_of two = last_two
versions_of three = last_three
versions_of four = last_four
versions_of full = version "v1" false 10 ∷ last_four

abbrev take_one : Option String → Proc Shelf GoError (Unit {0})
take_one id one = (err refused, one)
take_one id two = (ok tt, one)
take_one id three = (ok tt, two)
take_one id four = (ok tt, three)
take_one id full = (ok tt, four)

abbrev shelf : IamPolicyClient Shelf
shelf = service versions_of take_one "{}"

abbrev count : Shelf → String → ℕ
count w arn = length (versions_of w)

within_limit : (w : Shelf) → length (versions_of w) ≤ max_number_of_policy_versions
within_limit one = omega arith
within_limit two = omega arith
within_limit three = omega arith
within_limit four = omega arith
within_limit full = omega arith

default_once :
    (w : Shelf)
    → All (λ v. v.is_default_version ≡ true) (versions_of w)
    → length (versions_of w) ≤ 1
default_once one all = omega arith
default_once two all = absurd (ground (arith, all.0))
default_once three all = absurd (ground (arith, all.0))
default_once four all = absurd (ground (arith, all.0))
default_once full all = absurd (ground (arith, all.0))

one_less :
    (id : Option String) (w : Shelf)
    → (take_one id w).0 ≡ ok tt
    → length (versions_of w) ≡ suc (length (versions_of (take_one id w).1))
one_less id one h = cc
one_less id two h = refl
one_less id three h = refl
one_less id four h = refl
one_less id full h = refl

one_taken :
    (w : Shelf) (v : PolicyVersion)
    → Among v (versions_of w)
    → v.is_default_version ≡ false
    → (take_one v.version_id w).0 ≡ ok tt
one_taken one v (inl e) kind =
    absurd (ground (arith, ap (λ (x : PolicyVersion). x.is_default_version) e, kind))
one_taken one v (inr e) kind = absurd e
one_taken two v among kind = refl
one_taken three v among kind = refl
one_taken four v among kind = refl
one_taken full v among kind = refl

shelf-CountsVersions : CountsVersions shelf count
shelf-CountsVersions = record {
  listed = λ arn w vs h. let same : versions_of w ≡ vs = cc in ap length (sym same);
  limit = λ arn w. within_limit w;
  one_default = λ arn w vs h all.
      let same : versions_of w ≡ vs = cc in rw (← same) (default_once w (rw (← same) at all));
  deleted = λ arn id w h. one_less id w h;
}

delete_oldest-HasRoom_example :
    HasRoom shelf count shelf-CountsVersions "arn" (delete_oldest_policy_version shelf "arn" full)
delete_oldest-HasRoom_example = delete_oldest-HasRoom shelf count shelf-CountsVersions "arn" full

oldest_version-IsOldest_example :
    IsOldest (versions_of full) (oldest_version none (versions_of full))
oldest_version-IsOldest_example = oldest_version-IsOldest (versions_of full)

-- A policy is the list of the identifiers of its versions.
abbrev listed_version : String → PolicyVersion
listed_version id = version id (id == "v2") 0

abbrev box : IamPolicyClient (List String)
box = service (map listed_version) (λ id w. (ok tt, erase (to_string id) w)) "{}"

abbrev present : List String → String → Option String → Bool
present w arn id = mem (to_string id) w

box-RemovesVersions : RemovesVersions box present
box-RemovesVersions = record {
  deleted = λ arn id w h.
      ground (arith, mem-erase (to_string id) (to_string id) w, eq_refl (to_string id));
  not_found = λ arn id w e h missing. cc;
  stays_away = λ arn id other w h. ground (arith, mem-erase (to_string other) (to_string id) w);
}

delete_policy_all_versions-RemovedAll_example :
    RemovedAll box present box-RemovesVersions "arn"
      (map listed_version ("v1" ∷ "v2" ∷ []))
      ("v1" ∷ "v2" ∷ [])
      (delete_policy_all_versions box "arn" ("v1" ∷ "v2" ∷ []))
delete_policy_all_versions-RemovedAll_example =
    delete_policy_all_versions-RemovedAll box present box-RemovesVersions "arn" ("v1" ∷ "v2" ∷ [])
      (map listed_version ("v1" ∷ "v2" ∷ [])) refl

-- The only JSON text is the empty object.
abbrev pub json : Json
json = record {
  Value = String;
  unmarshal = λ s. if s == "{}" then some s else none;
  valid = λ s. s == "{}";
  deep_equal = λ a b. a == b;
}

shelf-Serves : Serves shelf count
shelf-Serves = record {
  lists = λ arn w. (versions_of w, refl);
  deletes = λ arn w vs v h among kind.
      let same : versions_of w ≡ vs = cc in one_taken w v (rw (← same) at among) kind;
  creates = λ c w room. (some "v2", refl);
}

new_version_succeeds_example : (id : String) × ((new_version shelf "arn" "{}" full).0 ≡ ok id)
new_version_succeeds_example =
    new_version_succeeds shelf count shelf-CountsVersions shelf-Serves "arn" "{}" full

abbrev pub spec : IamPolicyConfig
spec = record {
  policy_name = "policy";
  policy_document = "{}";
  description = "";
  path = "";
  tags = [];
}

resolve_spec-IsWellFormed_example :
    (resolve_spec json spec ≡ ok (apply_defaults spec))
    ↔ (IsWellFormed json spec × (apply_defaults spec ≡ apply_defaults spec))
resolve_spec-IsWellFormed_example = resolve_spec-IsWellFormed json spec (apply_defaults spec)

-- The URL encoding, where it is needed.
abbrev pub url_encoded : String → String
url_encoded s = if s == "{}" then "%7B%7D" else s

-- A service whose world is the document in effect, which it gives in the URL encoding.
abbrev pub keeper : IamPolicyClient String
keeper = record {
  list_policies = λ path w. (ok (policy ∷ []), w);
  get_policy = λ arn w. (ok (some policy), w);
  create_policy = λ c w. (ok policy, c.policy_document);
  create_policy_version = λ c w. (ok (some "v2"), c.policy_document);
  list_policy_versions = λ arn w. (ok [], w);
  get_policy_version = λ arn id w. (ok (some (url_encoded w)), w);
  delete_policy_version = λ arn id w. (ok tt, w);
  delete_policy = λ arn w. (ok tt, w);
}

abbrev pub effective : String → String → String
effective w arn = w

url_encoded_faithful :
    (s t : String) → json_equals json (url_encoded s) t ≡ true → json_equals json s t ≡ true
unfolding json_equals
url_encoded_faithful s t h = elim (Bool-cases (s == "{}")) [
  | inl braces ↦ let k = rw braces at h in cc
  | inr other ↦ rw other at h
]

pub keeper-KeepsDocuments : KeepsDocuments json url_encoded keeper effective
keeper-KeepsDocuments = record {
  read = λ arn w p d h g. let same : some (url_encoded w) ≡ d = cc in ap to_string same;
  versioned = λ c w id default h. refl;
  created = λ c w p h. refl;
  faithful = λ s t h. url_encoded_faithful s t h;
}

abbrev pub no_status : IamPolicyStatus
no_status = record { policy_arn = ""; policy_id = ""; policy_name = ""; current_version_id = "" }

apply_action-AppliedDocument_example :
    AppliedDocument json [] keeper url_encoded effective keeper-KeepsDocuments "{}"
      (apply_action json [] keeper spec no_status "old")
apply_action-AppliedDocument_example =
    apply_action-AppliedDocument json [] keeper url_encoded effective keeper-KeepsDocuments spec
      no_status "old"
