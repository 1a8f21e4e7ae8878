-- ===== src/IamPolicy/Config/Resolution.antt =====
-- What `resolveSpec` of the policy provider accepts.
use componator_aws_providers.Prelude.{◌≡◌, ◌≢◌, ◌↔◌, true, arith, eq_iff}
use componator_aws_providers.Go.Flow.{ok}
use componator_aws_providers.Json.{Json}
use componator_aws_providers.IamPolicy.Config.{IamPolicyConfig, apply_defaults, resolve_spec}

-- What a configuration has to have.
pub record IsWellFormed (json : Json) (c : IamPolicyConfig) : Type 0 where
  pub named : c.policy_name ≢ ""
  pub documented : c.policy_document ≢ ""
  pub parses : json.valid c.policy_document ≡ true

-- `resolveSpec` accepts exactly the configurations with a policy name and a document that is valid
-- JSON and not empty; what it accepts gets its default path.
pub resolve_spec-IsWellFormed :
    (json : Json) (c d : IamPolicyConfig)
    → (resolve_spec json c ≡ ok d) ↔ (IsWellFormed json c × (d ≡ apply_defaults c))
unfolding resolve_spec
resolve_spec-IsWellFormed json c d = (
  λ h. (
    record {
      named = λ e. ground (arith, (eq_iff c.policy_name "").1 e);
      documented = λ e. ground (arith, (eq_iff c.policy_document "").1 e);
      parses = ground arith;
    },
    ground arith,
  ),
  λ (v, e). ground (
    arith,
    v.named,
    v.documented,
    v.parses,
    eq_iff c.policy_name "",
    eq_iff c.policy_document "",
  ),
)
