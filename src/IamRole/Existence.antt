-- ===== src/IamRole/Existence.antt =====
-- What the role provider relies on of the IAM client, as laws over the roles that are there.
-- `exists w r` says that in the world `w` the role `r` is there. Only the creation brings a role
-- about, and an answer tells whether the role is there.
use componator_aws_providers.Prelude.{String, ◌≡◌, Bool, true, false, none, some}
use componator_aws_providers.Go.{GoError}
use componator_aws_providers.Go.Flow.{ok, err}
use componator_aws_providers.Aws.{is_not_found_error}
use componator_aws_providers.IamRole.Client.{Role, IamRoleClient}

module _ {W : Type 0} (exists : W → String → Bool) where
  -- A role that is not there before is not there after.
  abbrev pub StaysAbsent : String → W → W → Type 0
  StaysAbsent r w w' = exists w r ≡ false → exists w' r ≡ false

  pub record KnowsRoles (client : IamRoleClient W) : Type 0 where
    pub found :
        (r : String) (w : W) (role : Role)
        → (client.get_role r w).0 ≡ ok (some role)
        → exists (client.get_role r w).1 r ≡ true
    pub absent :
        (r : String) (w : W)
        → (client.get_role r w).0 ≡ ok none
        → exists (client.get_role r w).1 r ≡ false
    pub not_found :
        (r : String) (w : W) (e : GoError)
        → (client.get_role r w).0 ≡ err e
        → is_not_found_error (some e) ≡ true
        → exists (client.get_role r w).1 r ≡ false
    pub deleted :
        (r : String) (w : W)
        → (client.delete_role r w).0 ≡ ok tt
        → exists (client.delete_role r w).1 r ≡ false
    pub delete_not_found :
        (r : String) (w : W) (e : GoError)
        → (client.delete_role r w).0 ≡ err e
        → is_not_found_error (some e) ≡ true
        → exists (client.delete_role r w).1 r ≡ false
    pub get_stays : (r : String) (w : W) → StaysAbsent r w (client.get_role r w).1
    pub list_stays :
        (r : String) (w : W) → StaysAbsent r w (client.list_attached_role_policies r w).1
    pub detach_stays : (r p : String) (w : W) → StaysAbsent r w (client.detach_role_policy r p w).1
    pub delete_stays : (r : String) (w : W) → StaysAbsent r w (client.delete_role r w).1
