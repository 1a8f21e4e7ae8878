-- ===== src/IamPolicy/Operations/Applied.antt =====
-- What a successful `applyAction` of the policy provider has done.
use componator_aws_providers.Prelude.{String, List, ◌≡◌, inl, inr, Option, none, some, arith}
use componator_aws_providers.Go.Flow.{ok, rescue, continue, merge, body, Result-cases}
use componator_aws_providers.Aws.{to_string, to_iam_tags, Checker}
use componator_aws_providers.Toolkit.{
  ActionResult, action_success, action_failure, action_result_for_error,
}
use componator_aws_providers.Json.{Json}
use componator_aws_providers.IamPolicy.Config.{IamPolicyConfig, IamPolicyStatus, resolve_spec}
use componator_aws_providers.IamPolicy.Client.{Policy, CreatePolicyInput, IamPolicyClient}
use componator_aws_providers.IamPolicy.Calls.{get_policy_by_name, create_policy}
use componator_aws_providers.IamPolicy.Documents.{KeepsDocuments, Agrees}
use componator_aws_providers.IamPolicy.Versions.{create_policy_version}
use componator_aws_providers.IamPolicy.Versions.Effect.{create_policy_version-InEffect}
use componator_aws_providers.IamPolicy.Operations.{
  apply_branch, apply_resolved, apply_validated, apply_action,
}

pub resolve_spec_document :
    (json : Json) (c d : IamPolicyConfig)
    → resolve_spec json c ≡ ok d
    → d.policy_document ≡ c.policy_document
unfolding resolve_spec
resolve_spec_document json c d h = ground arith

module _ {W : Type 0} (json : Json) (checkers : List Checker) (client : IamPolicyClient W)
    (given : String → String) (effective : W → String → String)
    (keeps : KeepsDocuments json given client effective) where
  -- If the result is a success, the document in effect at the ARN of its status agrees with the
  -- desired one. Nothing is said of other results.
  abbrev pub AppliedDocument : String → ActionResult IamPolicyStatus × W → Type 0
  AppliedDocument desired (action_success s m, w) = Agrees json (effective w s.policy_arn) desired
  AppliedDocument desired (action_failure s m, w) = Unit
  AppliedDocument desired (action_result_for_error s e c, w) = Unit

  apply_branch-AppliedDocument :
      (spec : IamPolicyConfig) (status : IamPolicyStatus) (policy : Option Policy) (w : W)
      → AppliedDocument spec.policy_document
          (body (apply_branch json checkers client spec status policy) w)
  unfolding apply_branch create_policy
  apply_branch-AppliedDocument spec status none w =
      let input : CreatePolicyInput = record {
        policy_name = spec.policy_name;
        policy_document = spec.policy_document;
        path = spec.path;
        description = spec.description;
        tags = to_iam_tags spec.tags;
      } in
      elim (Result-cases (client.create_policy input w).0) [
        | inl (e, h) ↦ rw (h, rescue, continue, merge) tt
        | inr (p, h) ↦ rw (h, rescue, continue, merge) (inr (keeps.created input w p h))
      ]
  apply_branch-AppliedDocument spec status (some p) w =
      let arn = to_string p.arn in
      let effect =
        create_policy_version-InEffect json given client effective keeps arn spec.policy_document
          w in
      elim (Result-cases (create_policy_version client arn json spec.policy_document w).0) [
        | inl (e, h) ↦ rw (h, rescue, continue, merge) tt
        | inr (id, h) ↦ rw (h, rescue, continue, merge) (rw h at effect)
      ]

  apply_resolved-AppliedDocument :
      (spec : IamPolicyConfig) (status : IamPolicyStatus) (w : W)
      → AppliedDocument spec.policy_document
          (body (apply_resolved json checkers client spec status) w)
  unfolding apply_resolved
  apply_resolved-AppliedDocument spec status w =
      elim (Result-cases (get_policy_by_name client spec.policy_name spec.path w).0) [
        | inl (e, h) ↦ rw (h, rescue, continue, merge) tt
        | inr (p, h) ↦
            rw (h, rescue, continue, merge) (apply_branch-AppliedDocument spec status p _)
      ]

  -- If `applyAction` succeeds, whether it met the policy or not, then the document in effect at the
  -- ARN that the status gives is the one of the configuration, or agrees with it as JSON. The service
  -- may give the documents in another form, such as the URL encoding, as long as a document whose
  -- other form agrees with a text as JSON agrees with it itself.
  pub apply_action-AppliedDocument :
      (spec : IamPolicyConfig) (status : IamPolicyStatus) (w : W)
      → AppliedDocument spec.policy_document (apply_action json checkers client spec status w)
  unfolding apply_action
  apply_action-AppliedDocument spec status w = elim (Result-cases (resolve_spec json spec)) [
    | inl (e, h) ↦ rw (h, apply_validated) tt
    | inr (spec', h) ↦
        rw (h, apply_validated, ← resolve_spec_document json spec spec' h)
          (apply_resolved-AppliedDocument spec' status w)
  ]
