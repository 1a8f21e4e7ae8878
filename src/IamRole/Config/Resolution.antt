-- ===== src/IamRole/Config/Resolution.antt =====
-- What `resolveSpec` of the role provider accepts, and what it makes of a configuration.
use componator_aws_providers.Prelude.{◌≡◌, ◌≢◌, ◌↔◌, true, [], arith, eq_iff}
use componator_aws_providers.Go.Flow.{ok}
use componator_aws_providers.Json.{Json}
use componator_aws_providers.IamRole.Config.{IamRoleConfig, apply_defaults, resolve_spec}

-- What a configuration has to have.
pub record IsComplete (json : Json) (c : IamRoleConfig) : Type 0 where
  pub named : c.role_name ≢ ""
  pub trusted : c.assume_role_policy ≢ ""
  pub attaches : c.managed_policy_arns ≢ []
  pub parses : json.valid c.assume_role_policy ≡ true

module _ (json : Json) where
  -- `resolveSpec` accepts exactly the configurations with a role name, a trust policy that is valid
  -- JSON, and a policy to attach; what it accepts gets its defaults.
  pub resolve_spec-IsComplete :
      (c d : IamRoleConfig)
      → (resolve_spec json c ≡ ok d) ↔ (IsComplete json c × (d ≡ apply_defaults c))
  unfolding resolve_spec
  resolve_spec-IsComplete c d = (
    λ h. (
      record {
        named = λ e. ground (arith, (eq_iff c.role_name "").1 e);
        trusted = λ e. ground (arith, (eq_iff c.assume_role_policy "").1 e);
        attaches = λ e. ground (arith, e);
        parses = ground arith;
      },
      ground arith,
    ),
    λ (v, e). ground (
      arith,
      v.named,
      v.trusted,
      v.attaches,
      v.parses,
      eq_iff c.role_name "",
      eq_iff c.assume_role_policy "",
    ),
  )

  -- A resolved configuration resolves to itself: its defaults are never put in again.
  pub resolve_spec_stable :
      (c d : IamRoleConfig) → resolve_spec json c ≡ ok d → resolve_spec json d ≡ ok d
  unfolding resolve_spec
  resolve_spec_stable c d h = ground (arith, eq_iff c.path "")

  pub resolve_spec_keeps :
      (c d : IamRoleConfig)
      → resolve_spec json c ≡ ok d
      → (d.role_name ≡ c.role_name) × (d.managed_policy_arns ≡ c.managed_policy_arns)
  unfolding resolve_spec
  resolve_spec_keeps c d h = ground arith
