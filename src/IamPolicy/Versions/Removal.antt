-- ===== src/IamPolicy/Versions/Removal.antt =====
-- What `deletePolicyAllVersions` leaves of the versions of a policy.
use componator_aws_providers.Prelude.{
  ℕ, suc, String, ◌≡◌, inl, inr, Bool, true, false, Option, some, List, [], ◌∷◌, All, arith,
  Bool-cases, if◌then◌else◌,
}
use componator_aws_providers.Go.{GoError}
use componator_aws_providers.Go.Flow.{Result, ok, err, rescue, continue, Result-cases}
use componator_aws_providers.Aws.{is_not_found_error}
use componator_aws_providers.IamPolicy.Client.{PolicyVersion, IamPolicyClient}
use componator_aws_providers.IamPolicy.Versions.{
  delete_version, delete_versions, delete_policy_all_versions,
}

-- What the provider relies on of the IAM client, as laws over the versions that a policy has:
-- `present w arn id` says that the policy has the version in the world `w`. A deletion takes its
-- version away and brings none back, also where it fails; "not found" means that it is not there.
pub record RemovesVersions {W : Type 0} (client : IamPolicyClient W)
    (present : W → String → Option String → Bool) : Type 0 where
  pub deleted :
      (arn : String) (id : Option String) (w : W)
      → (client.delete_policy_version arn id w).0 ≡ ok tt
      → present (client.delete_policy_version arn id w).1 arn id ≡ false
  pub not_found :
      (arn : String) (id : Option String) (w : W) (e : GoError)
      → (client.delete_policy_version arn id w).0 ≡ err e
      → is_not_found_error (some e) ≡ true
      → present (client.delete_policy_version arn id w).1 arn id ≡ false
  pub stays_away :
      (arn : String) (id other : Option String) (w : W)
      → present w arn other ≡ false
      → present (client.delete_policy_version arn id w).1 arn other ≡ false

module _ {W : Type 0} (client : IamPolicyClient W) (present : W → String → Option String → Bool)
    (removes : RemovesVersions client present) (arn : String) where
  -- The versions of `vs` but the default one are not there in `w`.
  abbrev pub Removed : List PolicyVersion → W → Type 0
  Removed vs w = All (λ v. v.is_default_version ≡ false → present w arn v.version_id ≡ false) vs

  -- What is not there after the first run is not there after the second.
  abbrev StaysAway : W → W → Type 0
  StaysAway w₀ w = (id : Option String) → present w₀ arn id ≡ false → present w arn id ≡ false

  abbrev RemovedOne : PolicyVersion → W → Result GoError Bool × W → Type 0
  RemovedOne v w₀ (err e, w) = StaysAway w₀ w
  RemovedOne v w₀ (ok d, w) =
      StaysAway w₀ w × (v.is_default_version ≡ false → present w arn v.version_id ≡ false)

  delete_version-RemovedOne :
      (v : PolicyVersion) (w : W) → RemovedOne v w (delete_version client arn v w)
  unfolding delete_version
  delete_version-RemovedOne v w = elim (Bool-cases v.is_default_version) [
    | inl d ↦ simp d ((λ id h. h), λ n. ground (arith, d, n))
    | inr n ↦ elim (Result-cases (client.delete_policy_version arn v.version_id w).0) [
      | inr (u, h) ↦ simp n (
          rw (h, rescue, continue)
            (
              (λ id. removes.stays_away arn v.version_id id w),
              λ m. removes.deleted arn v.version_id w h,
            ))
      | inl (e, h) ↦ elim (Bool-cases (is_not_found_error (some e))) [
        | inl gone ↦ simp n (
            rw (h, rescue, continue)
              (rw gone (
                (λ id. removes.stays_away arn v.version_id id w),
                λ m. removes.not_found arn v.version_id w e h gone,
              )))
        | inr other ↦
            simp n
              (rw (h, rescue, continue) (rw other (λ id. removes.stays_away arn v.version_id id w)))
      ]
    ]
  ]

  abbrev pub RemovedAll : List PolicyVersion → W → Result GoError ℕ × W → Type 0
  RemovedAll vs w₀ (err e, w) = StaysAway w₀ w
  RemovedAll vs w₀ (ok k, w) = StaysAway w₀ w × Removed vs w

  RemovedAll-cons :
      (v : PolicyVersion) (vs : List PolicyVersion) (w₀ w₁ : W) (x : Result GoError ℕ × W)
      → StaysAway w₀ w₁
      → (v.is_default_version ≡ false → present w₁ arn v.version_id ≡ false)
      → RemovedAll vs w₁ x
      → RemovedAll (v ∷ vs) w₀ x
  RemovedAll-cons v vs w₀ w₁ (err e, w) away gone stays = λ id h. stays id (away id h)
  RemovedAll-cons v vs w₀ w₁ (ok k, w) away gone (stays, rest) =
      ((λ id h. stays id (away id h)), ((λ n. stays v.version_id (gone n)), rest))

  delete_versions-RemovedAll :
      (vs : List PolicyVersion) (n : ℕ) (w : W)
      → RemovedAll vs w (delete_versions client arn vs n w)
  unfolding delete_versions
  delete_versions-RemovedAll [] n w = ((λ id h. h), tt)
  delete_versions-RemovedAll (v ∷ vs) n w =
      let one = delete_version-RemovedOne v w in
      elim (Result-cases (delete_version client arn v w).0) [
        | inl (e, h) ↦ rw (h, continue) (rw h at one)
        | inr (d, h) ↦
            let (away, gone) = rw h at one in
            rw (h, continue)
              (RemovedAll-cons v vs w _ _ away gone
                (delete_versions-RemovedAll vs (if d then suc n else n) _))
      ]

  -- If the listing succeeds, `deletePolicyAllVersions` ends with an error, or none of the listed
  -- versions is there but the default one; a version that the service does not find counts as
  -- deleted. In both cases it brings no version back.
  pub delete_policy_all_versions-RemovedAll :
      (w : W) (vs : List PolicyVersion)
      → (client.list_policy_versions arn w).0 ≡ ok vs
      → RemovedAll vs
          (client.list_policy_versions arn w).1
          (delete_policy_all_versions client arn w)
  unfolding delete_policy_all_versions
  delete_policy_all_versions-RemovedAll w vs h =
      rw (h, rescue, continue) (delete_versions-RemovedAll vs 0 _)
