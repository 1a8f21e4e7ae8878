-- ===== src/IamRole/Calls.antt =====
-- iamrole/aws_iamrole.go: the calls of the IAM client, with the errors that they give.
use componator_aws_providers.Prelude.{String, Option, none, some, List, [], map, if◌then◌else◌}
use componator_aws_providers.Prelude.Int.{ℤ}
use componator_aws_providers.Go.{GoError, wrapf}
use componator_aws_providers.Go.Flow.{Proc, pure, stop, ◌>>=◌, ◌catch◌, ◌or_return◌}
use componator_aws_providers.Aws.{to_string, to_iam_tags, is_not_found_error}
use componator_aws_providers.Json.{Json, json_equals}
use componator_aws_providers.IamRole.Client.{Role, IamRoleClient}

module _ {W : Type 0} (client : IamRoleClient W) where
  -- `getRoleByName`; `none` is a nil role.
  unfoldable pub get_role_by_name : String → Proc W GoError (Option Role)
  get_role_by_name role_name = client.get_role role_name catch λ e.
      if is_not_found_error (some e) then pure none else stop (wrapf "failed to get role: %w" [] e)

  -- `listAttachedPolicies`
  unfoldable pub list_attached_policies : String → Proc W GoError (List String)
  list_attached_policies role_name = do
    output ←
        client.list_attached_role_policies role_name
        or_return wrapf "failed to list attached policies: %w" []
    pure (map to_string output)

  -- `createRole`
  unfoldable pub create_role :
      String → String → String → String → ℤ → List (String × String) → Proc W GoError Role
  create_role role_name assume_role_policy path description max_session_duration tags =
      client.create_role (record {
        role_name = role_name;
        assume_role_policy_document = assume_role_policy;
        path = path;
        max_session_duration = max_session_duration;
        description = description;
        tags = to_iam_tags tags;
      })
      or_return wrapf "failed to create role: %w" []

  -- `updateTrustPolicy`
  unfoldable pub update_trust_policy : Json → String → String → String → Proc W GoError (Unit {0})
  update_trust_policy json role_name current_policy desired_policy =
      if json_equals json current_policy desired_policy
      then pure tt
      else (client.update_assume_role_policy role_name desired_policy
          or_return wrapf "failed to update assume role policy: %w" [])

  -- `attachPolicy`
  unfoldable pub attach_policy : String → String → Proc W GoError (Unit {0})
  attach_policy role_name policy_arn =
      client.attach_role_policy role_name policy_arn
      or_return wrapf "failed to attach policy: %w" []

  -- `detachPolicy`
  unfoldable pub detach_policy : String → String → Proc W GoError (Unit {0})
  detach_policy role_name policy_arn =
      client.detach_role_policy role_name policy_arn
      or_return wrapf "failed to detach policy: %w" []

  -- `deleteRole`: a role that is not there counts as deleted.
  unfoldable pub delete_role : String → Proc W GoError (Unit {0})
  delete_role role_name = client.delete_role role_name catch λ e.
      if is_not_found_error (some e) then pure tt else stop (wrapf "failed to delete role: %w" [] e)
