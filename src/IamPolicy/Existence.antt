-- ===== src/IamPolicy/Existence.antt =====
-- What the policy provider relies on of the IAM client, as laws over the policies that are there.
-- `exists w arn` says that in the world `w` there is a policy with that ARN. An answer tells whether
-- it is there, and the calls that read or delete bring no policy about.
use componator_aws_providers.Prelude.{String, ◌≡◌, Bool, true, false, Option, none, some}
use componator_aws_providers.Go.{GoError}
use componator_aws_providers.Go.Flow.{ok, err}
use componator_aws_providers.Aws.{is_not_found_error}
use componator_aws_providers.IamPolicy.Client.{Policy, IamPolicyClient}

module _ {W : Type 0} (exists : W → String → Bool) where
  -- A policy that is not there before is not there after.
  abbrev pub StaysAbsent : String → W → W → Type 0
  StaysAbsent arn w w' = exists w arn ≡ false → exists w' arn ≡ false

  pub record KnowsPolicies (client : IamPolicyClient W) : Type 0 where
    pub found :
        (arn : String) (w : W) (p : Policy)
        → (client.get_policy arn w).0 ≡ ok (some p)
        → exists (client.get_policy arn w).1 arn ≡ true
    pub absent :
        (arn : String) (w : W)
        → (client.get_policy arn w).0 ≡ ok none
        → exists (client.get_policy arn w).1 arn ≡ false
    pub not_found :
        (arn : String) (w : W) (e : GoError)
        → (client.get_policy arn w).0 ≡ err e
        → is_not_found_error (some e) ≡ true
        → exists (client.get_policy arn w).1 arn ≡ false
    pub deleted :
        (arn : String) (w : W)
        → (client.delete_policy arn w).0 ≡ ok tt
        → exists (client.delete_policy arn w).1 arn ≡ false
    pub delete_not_found :
        (arn : String) (w : W) (e : GoError)
        → (client.delete_policy arn w).0 ≡ err e
        → is_not_found_error (some e) ≡ true
        → exists (client.delete_policy arn w).1 arn ≡ false
    pub get_stays : (arn : String) (w : W) → StaysAbsent arn w (client.get_policy arn w).1
    pub list_stays :
        (arn : String) (w : W) → StaysAbsent arn w (client.list_policy_versions arn w).1
    pub delete_version_stays :
        (arn : String) (id : Option String) (w : W)
        → StaysAbsent arn w (client.delete_policy_version arn id w).1
    pub delete_stays : (arn : String) (w : W) → StaysAbsent arn w (client.delete_policy arn w).1
