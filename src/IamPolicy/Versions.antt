-- ===== src/IamPolicy/Versions.antt =====
-- iampolicy/aws_iampolicy.go: the versions of a policy, of which AWS keeps at most five.
pub mod Oldest
pub mod Effect
pub mod Limit
pub mod Room
pub mod Removal
use componator_aws_providers.Prelude.{
  ℕ, suc, String, Bool, true, false, Option, none, some, List, [], ◌∷◌, length, ltb, if◌then◌else◌,
}
use componator_aws_providers.Go.{GoError, str, errorf, wrapf}
use componator_aws_providers.Go.Flow.{Proc, pure, stop, ◌>>=◌, ◌>>◌, ◌catch◌, ◌or_return◌}
use componator_aws_providers.Aws.{to_string, is_not_found_error}
use componator_aws_providers.Json.{Json, json_equals}
use componator_aws_providers.IamPolicy.Client.{Policy, PolicyVersion, IamPolicyClient}
use componator_aws_providers.IamPolicy.Calls.{get_policy_by_arn}

-- `MaxNumberOfPolicyVersions`
abbrev pub max_number_of_policy_versions : ℕ
max_number_of_policy_versions = 5

-- The condition `oldestVersion == nil || v.CreateDate.Before(*oldestVersion.CreateDate)`.
abbrev is_older : PolicyVersion → Option PolicyVersion → Bool
is_older v none = true
is_older v (some oldest) = ltb v.create_date oldest.create_date

-- The loop that looks for the oldest version that is not the default one.
unfoldable pub oldest_version : Option PolicyVersion → List PolicyVersion → Option PolicyVersion
oldest_version oldest [] = oldest
oldest_version oldest (v ∷ versions) =
    oldest_version
      (if v.is_default_version then oldest else if is_older v oldest then some v else oldest)
      versions

module _ {W : Type 0} (client : IamPolicyClient W) (policy_arn : String) where
  abbrev pub delete_old : Option PolicyVersion → Proc W GoError (Unit {0})
  delete_old none = pure tt
  delete_old (some oldest) =
      client.delete_policy_version policy_arn oldest.version_id
      or_return wrapf "failed to delete old policy version %s: %w"
          (str (to_string oldest.version_id) ∷ [])

  -- `deleteOldestPolicyVersion`
  unfoldable pub delete_oldest_policy_version : Proc W GoError (Unit {0})
  delete_oldest_policy_version = do
    versions ←
        client.list_policy_versions policy_arn
        or_return wrapf "failed to list policy versions: %w" []
    if ltb (length versions) max_number_of_policy_versions
        then pure tt
        else delete_old (oldest_version none versions)

  abbrev pub default_document : Option Policy → Proc W GoError (String × String)
  default_document none = stop (errorf "policy not found" [])
  default_document (some policy) = do
    let default_version_id = to_string policy.default_version_id
    document ←
        client.get_policy_version policy_arn default_version_id
        or_return wrapf "failed to get policy version: %w" []
    pure (to_string document, default_version_id)

  -- `getCurrentPolicyDocument`
  unfoldable pub get_current_policy_document : Proc W GoError (String × String)
  unfolding get_policy_by_arn
  get_current_policy_document = do
    policy ← get_policy_by_arn client policy_arn
    default_document policy

  abbrev pub new_version : String → Proc W GoError String
  new_version desired_document = do
    delete_oldest_policy_version or_return wrapf "failed to cleanup old versions: %w" []
    version_id ←
        client.create_policy_version (record {
          policy_arn = policy_arn;
          policy_document = desired_document;
          set_as_default = true;
        })
        or_return wrapf "failed to create policy version: %w" []
    pure (to_string version_id)

  -- `createPolicyVersion`
  unfoldable pub create_policy_version : Json → String → Proc W GoError String
  create_policy_version json desired_document = do
    (current_document, version_id) ←
        get_current_policy_document or_return wrapf "failed to get current policy document: %w" []
    if json_equals json current_document desired_document
        then pure version_id
        else new_version desired_document

  -- One round of the loop of `deletePolicyAllVersions`: whether a version was deleted.
  unfoldable pub delete_version : PolicyVersion → Proc W GoError Bool
  delete_version version =
      if version.is_default_version
      then pure false
      else (do client.delete_policy_version policy_arn version.version_id; pure true) catch λ e.
          if is_not_found_error (some e)
          then pure false
          else stop (
              wrapf "failed to delete policy version %s: %w"
                (str (to_string version.version_id) ∷ []) e)

  -- The loop of `deletePolicyAllVersions`, with the number of deleted versions.
  unfoldable pub delete_versions : List PolicyVersion → ℕ → Proc W GoError ℕ
  delete_versions [] deleted_count = pure deleted_count
  delete_versions (version ∷ versions) deleted_count = do
    deleted ← delete_version version
    delete_versions versions (if deleted then suc deleted_count else deleted_count)

  -- `deletePolicyAllVersions`; it gives the number of deleted versions, which the source logs.
  unfoldable pub delete_policy_all_versions : Proc W GoError ℕ
  delete_policy_all_versions = (do
    versions ← client.list_policy_versions policy_arn catch λ e.
        if is_not_found_error (some e)
        then pure []
        else stop (wrapf "failed to list policy versions: %w" [] e)
    delete_versions versions 0)
