-- ===== src/IamPolicy/Versions/Limit.antt =====
-- How the versions of a policy are cleaned up before a new one is made.
use componator_aws_providers.Prelude.{
  ℕ, suc, ◌≤◌, ◌<◌, String, ◌≡◌, inl, inr, true, Option, none, some, List, length, ltb, All, arith,
  Bool-cases, ltb→lt,
}
use componator_aws_providers.Go.{GoError}
use componator_aws_providers.Go.Flow.{Result, ok, err, rescue, continue, Result-cases}
use componator_aws_providers.IamPolicy.Client.{PolicyVersion, IamPolicyClient}
use componator_aws_providers.IamPolicy.Versions.{
  max_number_of_policy_versions, oldest_version, delete_old, delete_oldest_policy_version,
}
use componator_aws_providers.IamPolicy.Versions.Oldest.{IsOldest, oldest_version-IsOldest}

-- What the provider relies on of the IAM client, as laws over the number of versions of a policy:
-- a listing gives all of them and at most five, at most one of which is the default one, and the
-- deletion of a listed version takes one away.
pub record CountsVersions {W : Type 0} (client : IamPolicyClient W) (count : W → String → ℕ)
    : Type 0 where
  pub listed :
      (arn : String) (w : W) (vs : List PolicyVersion)
      → (client.list_policy_versions arn w).0 ≡ ok vs
      → length vs ≡ count (client.list_policy_versions arn w).1 arn
  pub limit : (arn : String) (w : W) → count w arn ≤ max_number_of_policy_versions
  pub one_default :
      (arn : String) (w : W) (vs : List PolicyVersion)
      → (client.list_policy_versions arn w).0 ≡ ok vs
      → All (λ v. v.is_default_version ≡ true) vs
      → length vs ≤ 1
  pub deleted :
      (arn : String) (id : Option String) (w : W)
      → (client.delete_policy_version arn id w).0 ≡ ok tt
      → count w arn ≡ suc (count (client.delete_policy_version arn id w).1 arn)

module _ {W : Type 0} (client : IamPolicyClient W) (count : W → String → ℕ)
    (counts : CountsVersions client count) (arn : String) where
  -- If the run ended without error, a version fits in.
  abbrev pub HasRoom : Result GoError (Unit {0}) × W → Type 0
  HasRoom (err e, w) = Unit
  HasRoom (ok u, w) = count w arn < max_number_of_policy_versions

  delete_old-HasRoom :
      (vs : List PolicyVersion) (old : Option PolicyVersion) (w : W)
      → IsOldest vs old
      → length vs ≡ count w arn
      → (All (λ v. v.is_default_version ≡ true) vs → length vs ≤ 1)
      → HasRoom (delete_old client arn old w)
  delete_old-HasRoom vs none w all len one = omega (arith, one all)
  delete_old-HasRoom vs (some v) w oldest len one =
      elim (Result-cases (client.delete_policy_version arn v.version_id w).0) [
        | inl (e, h) ↦ rw (h, rescue) tt
        | inr (u, h) ↦
            rw (h, rescue) (omega (arith, counts.deleted arn v.version_id w h, counts.limit arn w))
      ]

  -- `deleteOldestPolicyVersion` ends with an error or with fewer than five versions: it deletes one
  -- where there are five, and none is left to be deleted only where all are the default version.
  pub delete_oldest-HasRoom : (w : W) → HasRoom (delete_oldest_policy_version client arn w)
  unfolding delete_oldest_policy_version
  delete_oldest-HasRoom w = elim (Result-cases (client.list_policy_versions arn w).0) [
    | inl (e, h) ↦ rw (h, rescue, continue) tt
    | inr (vs, h) ↦ elim (Bool-cases (ltb (length vs) max_number_of_policy_versions)) [
      | inl fits ↦
          rw (h, rescue, continue)
            (rw fits (omega (arith, ltb→lt (length vs) 5 fits, counts.listed arn w vs h)))
      | inr full ↦
          rw (h, rescue, continue)
            (rw full (
              delete_old-HasRoom vs (oldest_version none vs) _ (oldest_version-IsOldest vs)
                (counts.listed arn w vs h) (counts.one_default arn w vs h)))
    ]
  ]
