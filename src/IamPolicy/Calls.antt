-- ===== src/IamPolicy/Calls.antt =====
-- iampolicy/aws_iampolicy.go: finding, creating and deleting a policy.
use componator_aws_providers.Prelude.{
  String, Option, none, some, List, [], ◌∷◌, ◌==◌, if◌then◌else◌,
}
use componator_aws_providers.Go.{GoError, wrapf}
use componator_aws_providers.Go.Flow.{Proc, pure, stop, ◌>>=◌, ◌catch◌, ◌or_return◌}
use componator_aws_providers.Aws.{to_string, to_iam_tags, is_not_found_error}
use componator_aws_providers.IamPolicy.Client.{Policy, IamPolicyClient}

-- The loop of `getPolicyByName`: the first policy of that name.
unfoldable pub find_policy : String → List Policy → Option Policy
find_policy policy_name [] = none
find_policy policy_name (p ∷ policies) =
    let rest = find_policy policy_name policies in
    if to_string p.policy_name == policy_name then some p else rest

module _ {W : Type 0} (client : IamPolicyClient W) where
  -- `getPolicyByName`; `none` is a nil policy.
  unfoldable pub get_policy_by_name : String → String → Proc W GoError (Option Policy)
  unfolding find_policy
  get_policy_by_name policy_name path = do
    policies ← client.list_policies path or_return wrapf "failed to list policies: %w" []
    pure (find_policy policy_name policies)

  -- `getPolicyByArn`
  unfoldable pub get_policy_by_arn : String → Proc W GoError (Option Policy)
  get_policy_by_arn arn = client.get_policy arn catch λ e.
      if is_not_found_error (some e)
      then pure none
      else stop (wrapf "failed to get policy: %w" [] e)

  -- `createPolicy`
  unfoldable pub create_policy :
      String → String → String → String → List (String × String) → Proc W GoError Policy
  create_policy policy_name policy_document path description tags =
      client.create_policy (record {
        policy_name = policy_name;
        policy_document = policy_document;
        path = path;
        description = description;
        tags = to_iam_tags tags;
      })
      or_return wrapf "failed to create policy: %w" []

  -- `deletePolicy`: a policy that is not there counts as deleted.
  unfoldable pub delete_policy : String → Proc W GoError (Unit {0})
  delete_policy policy_arn = client.delete_policy policy_arn catch λ e.
      if is_not_found_error (some e)
      then pure tt
      else stop (wrapf "failed to delete policy: %w" [] e)
