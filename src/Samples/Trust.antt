-- ===== src/Samples/Trust.antt =====
-- The theorem on the trust policies of a role, at a service that gives them in the URL encoding.
use componator_aws_providers.Prelude.{ℕ, suc, ◌≤◌, ◌≡◌, refl, some, [], ◌∷◌, arith}
use componator_aws_providers.Prelude.Texts.{mem, insert, set_of, delete_func}
use componator_aws_providers.Prelude.Order.{sorted}
use componator_aws_providers.Json.{json_equals}
use componator_aws_providers.IamRole.Calls.{
  get_role_by_name, update_trust_policy, list_attached_policies,
}
use componator_aws_providers.IamRole.Reconcile.{missing, reconcile_policy_attachments}
use componator_aws_providers.Go.{Message}
use componator_aws_providers.Go.Flow.{ok}
use componator_aws_providers.Toolkit.{action_success}
use componator_aws_providers.Lifecycle.{Call, called}
use componator_aws_providers.IamRole.Config.{IamRoleStatus, resolve_spec}
use componator_aws_providers.IamRole.Client.{Role, IamRoleClient}
use componator_aws_providers.IamRole.Operations.{apply_action}
use componator_aws_providers.IamRole.Operations.Sent.{
  EncodesTrustPolicies, apply_action_sends_policies,
}
use componator_aws_providers.IamRole.Register as IamRole
use componator_aws_providers.Samples.Role as Samples

abbrev encoded : Role
encoded = record Samples.admin { assume_role_policy_document = some "%7B%7D" }

-- The world is the number of the trust policies that were accepted.
abbrev counter : IamRoleClient ℕ
counter = record {
  get_role = λ r w. (ok (some encoded), w);
  create_role = λ c w. (ok encoded, suc w);
  update_assume_role_policy = λ r d w. (ok tt, suc w);
  list_attached_role_policies = λ r w. (ok (some "b" ∷ some "c" ∷ []), w);
  attach_role_policy = λ r p w. (ok tt, w);
  detach_role_policy = λ r p w. (ok tt, w);
  delete_role = λ r w. (ok tt, w);
}

counter-EncodesTrustPolicies : EncodesTrustPolicies Samples.json counter (λ w. w)
counter-EncodesTrustPolicies = record {
  created = λ c w role h. refl;
  updated = λ r d w h. refl;
  encoded = λ r w role h. let same : encoded ≡ role = cc in rw (← same) refl;
  grows = λ r wanted. record {
    get = record { run = λ w. omega arith };
    create = λ c e. record { run = λ w. omega arith };
    update = λ d. record { run = λ w. omega arith };
    list = record { run = λ w. omega arith };
    attach = λ p e. record { run = λ w. omega arith };
    detach = λ p e. record { run = λ w. omega arith };
  };
}

abbrev counted : IamRoleStatus × ℕ → IamRoleStatus × ℕ
counted =
    called (record { namespace = "ns"; name = "component" }) Samples.spec
      (IamRole.provider Samples.json [] counter "iam-role") Call.apply

abbrev once : IamRoleStatus × ℕ
once = counted (Samples.no_status, 0)

applied_with :
    (s : IamRoleStatus) (w : ℕ)
    → (m : Message) × ((apply_action Samples.json [] counter Samples.spec s w).0
        ≡ action_success (counted (s, w)).0 m)
unfolding resolve_spec apply_action get_role_by_name update_trust_policy json_equals
    reconcile_policy_attachments list_attached_policies missing sorted delete_func set_of insert mem
applied_with s w = (_, refl)

apply_action_sends_policies_example : (1 ≤ once.1) × (suc once.1 ≤ (counted once).1)
apply_action_sends_policies_example =
    apply_action_sends_policies Samples.json counter (λ w. w) counter-EncodesTrustPolicies []
      Samples.spec Samples.no_status once.0 (counted once).0 (applied_with Samples.no_status 0).0
      (applied_with once.0 once.1).0 0 (applied_with Samples.no_status 0).1
      (applied_with once.0 once.1).1
