-- ===== src/IamPolicy/Versions/Room.antt =====
-- When a new version of a policy can be made.
use componator_aws_providers.Prelude.{
  ℕ, ◌<◌, String, ◌≡◌, refl, inl, inr, true, false, Option, none, some, List, length, ltb,
  Bool-cases,
}
use componator_aws_providers.Go.Flow.{ok, rescue, continue}
use componator_aws_providers.Aws.{to_string}
use componator_aws_providers.IamPolicy.Client.{
  PolicyVersion, CreatePolicyVersionInput, IamPolicyClient,
}
use componator_aws_providers.IamPolicy.Versions.{
  max_number_of_policy_versions, oldest_version, delete_old, delete_oldest_policy_version,
  new_version,
}
use componator_aws_providers.IamPolicy.Versions.Oldest.{Among, IsOldest, oldest_version-IsOldest}
use componator_aws_providers.IamPolicy.Versions.Limit.{
  CountsVersions, HasRoom, delete_oldest-HasRoom,
}

-- The service refuses a call only for the reasons that its documentation gives: it lists the
-- versions, deletes a listed one that is not the default one, and makes a new one where there are
-- fewer than five.
pub record Serves {W : Type 0} (client : IamPolicyClient W) (count : W → String → ℕ) : Type 0 where
  pub lists :
      (arn : String) (w : W)
      → (vs : List PolicyVersion) × ((client.list_policy_versions arn w).0 ≡ ok vs)
  pub deletes :
      (arn : String) (w : W) (vs : List PolicyVersion) (v : PolicyVersion)
      → (client.list_policy_versions arn w).0 ≡ ok vs
      → Among v vs
      → v.is_default_version ≡ false
      → (client.delete_policy_version arn v.version_id (client.list_policy_versions arn w).1).0
        ≡ ok tt
  pub creates :
      (c : CreatePolicyVersionInput) (w : W)
      → count w c.policy_arn < max_number_of_policy_versions
      → (id : Option String) × ((client.create_policy_version c w).0 ≡ ok id)

module _ {W : Type 0} (client : IamPolicyClient W) (count : W → String → ℕ)
    (counts : CountsVersions client count) (serves : Serves client count) (arn : String) where
  delete_old_ok :
      (w : W) (vs : List PolicyVersion) (old : Option PolicyVersion)
      → (client.list_policy_versions arn w).0 ≡ ok vs
      → IsOldest vs old
      → (delete_old client arn old (client.list_policy_versions arn w).1).0 ≡ ok tt
  delete_old_ok w vs none h oldest = refl
  delete_old_ok w vs (some v) h (among, kind, older) =
      rw (serves.deletes arn w vs v h among kind, rescue)

  delete_oldest_ok : (w : W) → (delete_oldest_policy_version client arn w).0 ≡ ok tt
  unfolding delete_oldest_policy_version
  delete_oldest_ok w =
      let (vs, h) = serves.lists arn w in
      elim (Bool-cases (ltb (length vs) max_number_of_policy_versions)) [
        | inl fits ↦ rw (h, rescue, continue) (rw fits)
        | inr full ↦
            rw (h, rescue, continue)
              (rw
                (full, delete_old_ok w vs (oldest_version none vs) h (oldest_version-IsOldest vs)))
      ]

  -- Where the service refuses a new version only for want of room, the part of `createPolicyVersion`
  -- that makes one always succeeds, however many versions the policy has.
  pub new_version_succeeds :
      (document : String) (w : W) → (id : String) × ((new_version client arn document w).0 ≡ ok id)
  new_version_succeeds document w =
      let cleaned = delete_oldest_ok w in
      let w₁ = (delete_oldest_policy_version client arn w).1 in
      let room : HasRoom client count counts arn (ok tt, w₁) =
        rw cleaned at (delete_oldest-HasRoom client count counts arn w) in
      let (id, h) =
        serves.creates
          (record { policy_arn = arn; policy_document = document; set_as_default = true }) w₁
          room in
      (to_string id, rw (cleaned, rescue, continue) (rw (h, rescue, continue)))
