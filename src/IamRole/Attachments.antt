-- ===== src/IamRole/Attachments.antt =====
-- What the role provider relies on of the IAM client, as laws over the policies that are attached.
-- `attached w r a` says that in the world `w` the policy with ARN `a` is attached to the role `r`.
-- The laws leave out other writers, answers of more than one page, and calls that take effect
-- although they fail.
use componator_aws_providers.Prelude.{
  String, ◌≡◌, ◌⊎◌, Bool, true, Option, some, List, map, not, ◌&&◌, ◌||◌, ◌==◌,
}
use componator_aws_providers.Prelude.Texts.{mem, IsNodup}
use componator_aws_providers.Go.{GoError}
use componator_aws_providers.Go.Flow.{ok, err}
use componator_aws_providers.Aws.{to_string, is_not_found_error}
use componator_aws_providers.IamRole.Client.{Role, CreateRoleInput, IamRoleClient}

pub record IsLawful {W : Type 0} (client : IamRoleClient W) (attached : W → String → String → Bool)
    : Type 0 where
  pub listed :
      (r : String) (w : W) (out : List (Option String))
      → (client.list_attached_role_policies r w).0 ≡ ok out
      → (a : String) → mem a (map to_string out) ≡ attached w r a
  pub listed_nodup :
      (r : String) (w : W) (out : List (Option String))
      → (client.list_attached_role_policies r w).0 ≡ ok out
      → IsNodup (map to_string out)
  pub list_keeps :
      (r : String) (w : W) (a : String)
      → attached (client.list_attached_role_policies r w).1 r a ≡ attached w r a
  pub attach_done :
      (r p : String) (w : W)
      → (client.attach_role_policy r p w).0 ≡ ok tt
      → (a : String) → attached (client.attach_role_policy r p w).1 r a ≡ (p == a || attached w r a)
  pub attach_failed :
      (r p : String) (w : W) (e : GoError)
      → (client.attach_role_policy r p w).0 ≡ err e
      → (a : String) → attached (client.attach_role_policy r p w).1 r a ≡ attached w r a
  pub detach_done :
      (r p : String) (w : W)
      → (client.detach_role_policy r p w).0 ≡ ok tt
      → (a : String)
      → attached (client.detach_role_policy r p w).1 r a ≡ (not (p == a) && attached w r a)
  pub detach_failed :
      (r p : String) (w : W) (e : GoError)
      → (client.detach_role_policy r p w).0 ≡ err e
      → (a : String) → attached (client.detach_role_policy r p w).1 r a ≡ attached w r a

-- Only attaching and detaching change the policies attached to a role. A role that is not there has
-- no policies, and the service deletes no role that has.
pub record KeepsAttachments {W : Type 0} (client : IamRoleClient W)
    (attached : W → String → String → Bool) : Type 0 where
  pub get_keeps :
      (r : String) (w : W) (a : String) → attached (client.get_role r w).1 r a ≡ attached w r a
  pub create_keeps :
      (c : CreateRoleInput) (w : W) (a : String)
      → attached (client.create_role c w).1 c.role_name a ≡ attached w c.role_name a
  pub update_keeps :
      (r d : String) (w : W) (a : String)
      → attached (client.update_assume_role_policy r d w).1 r a ≡ attached w r a
  pub delete_keeps :
      (r : String) (w : W) (a : String) → attached (client.delete_role r w).1 r a ≡ attached w r a

-- The service refuses none of the calls that bring a role to its configuration: it gives a role, or
-- says by its error that there is none.
pub record Answers {W : Type 0} (client : IamRoleClient W) : Type 0 where
  pub gets :
      (r : String) (w : W)
      → ((role : Role) × ((client.get_role r w).0 ≡ ok (some role)))
        ⊎ ((e : GoError) × ((client.get_role r w).0 ≡ err e) × (is_not_found_error (some e) ≡ true))
  pub creates :
      (c : CreateRoleInput) (w : W) → (role : Role) × ((client.create_role c w).0 ≡ ok role)
  pub updates : (r d : String) (w : W) → (client.update_assume_role_policy r d w).0 ≡ ok tt
  pub lists :
      (r : String) (w : W)
      → (out : List (Option String)) × ((client.list_attached_role_policies r w).0 ≡ ok out)
  pub attaches : (r p : String) (w : W) → (client.attach_role_policy r p w).0 ≡ ok tt
  pub detaches : (r p : String) (w : W) → (client.detach_role_policy r p w).0 ≡ ok tt
