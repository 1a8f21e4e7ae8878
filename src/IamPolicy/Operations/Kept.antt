-- ===== src/IamPolicy/Operations/Kept.antt =====
-- iampolicy/operations.go: the documents in effect over the handlers but `deleteAction`.
use componator_aws_providers.Prelude.{
  String, ◌≡◌, refl, ◌∙◌, ◌⊎◌, inl, inr, Option, none, some, List,
}
use componator_aws_providers.Go.Flow.{Proc, body, Result-cases}
use componator_aws_providers.Go.Along.{
  Preorder, Along, pure-Along, >>=-Along, or_return-Along, if-Along,
}
use componator_aws_providers.Aws.{to_string, Checker}
use componator_aws_providers.Json.{Json}
use componator_aws_providers.IamPolicy.Config.{IamPolicyConfig, IamPolicyStatus, resolve_spec}
use componator_aws_providers.IamPolicy.Client.{Policy, IamPolicyClient}
use componator_aws_providers.IamPolicy.Documents.{PutsInEffect}
use componator_aws_providers.IamPolicy.Calls.{create_policy}
use componator_aws_providers.IamPolicy.Versions.{new_version, create_policy_version}
use componator_aws_providers.IamPolicy.Operations.{
  apply_branch, apply_resolved, apply_validated, apply_action, check_applied, check_deleted,
}
use componator_aws_providers.IamPolicy.Operations.Runs.{check_applied-Along, check_deleted-Along}
use componator_aws_providers.IamPolicy.Operations.Reading.{
  ReadsAlong, get_policy_by_name-Along, delete_oldest-Along, get_current-Along,
}
use componator_aws_providers.IamPolicy.Operations.Applied.{resolve_spec_document}

module _ {W : Type 0} (json : Json) (checkers : List Checker) (client : IamPolicyClient W)
    (effective : W → String → String) (puts : PutsInEffect client effective) where
  -- At every ARN the document in effect is the same, or it is now the desired one.
  abbrev pub Keeps : String → W → W → Type 0
  Keeps desired w w' =
      (arn : String) → (effective w' arn ≡ effective w arn) ⊎ (effective w' arn ≡ desired)

  module _ (desired : String) where
    abbrev keeping : Preorder (Keeps desired)
    keeping = record {
      same = λ w arn. inl refl;
      trans = λ u v w first second arn. elim (second arn) [
        | inr e ↦ inr e
        | inl e ↦ elim (first arn) [ inr d ↦ inr (e ∙ d) | inl d ↦ inl (e ∙ d) ]
      ];
    }

    abbrev Keeping : {E A : Type 0} → Proc W E A → Type 0
    Keeping = Along (Keeps desired)

    unchanged :
        {E A : Type 0} (m : Proc W E A)
        → ((arn : String) (w : W) → effective (m w).1 arn ≡ effective w arn)
        → Keeping m
    unchanged m kept = record { run = λ w arn. inl (kept arn w) }

    reading : ReadsAlong client (Keeps desired)
    reading = record {
      list = λ path. unchanged (client.list_policies path) (puts.list_keeps path);
      get = λ id. unchanged (client.get_policy id) (puts.get_keeps id);
      list_versions =
          λ id. unchanged (client.list_policy_versions id) (puts.list_versions_keeps id);
      get_version = λ id version.
          unchanged (client.get_policy_version id version) (puts.get_version_keeps id version);
      delete_version = λ id version.
          unchanged (client.delete_policy_version id version)
            (puts.delete_version_keeps id version);
    }

    new_version-Keeping : (id : String) → Keeping (new_version client id desired)
    new_version-Keeping id =
        >>=-Along keeping _ _
          (or_return-Along keeping _ _ (delete_oldest-Along client keeping reading id))
          (λ u.
            >>=-Along keeping _ _
              (or_return-Along keeping (client.create_policy_version _) _
                (record { run = λ w arn. puts.versions _ arn w }))
              (λ version. pure-Along keeping _))

    create_policy_version-Keeping :
        (id : String) → Keeping (create_policy_version client id json desired)
    unfolding create_policy_version
    create_policy_version-Keeping id =
        >>=-Along keeping _ _
          (or_return-Along keeping _ _ (get_current-Along client keeping reading id))
          (λ current. if-Along _ _ _ (pure-Along keeping _) (new_version-Keeping id))

  apply_branch-Keeping :
      (spec : IamPolicyConfig) (status : IamPolicyStatus) (policy : Option Policy)
      → Keeping spec.policy_document (apply_branch json checkers client spec status policy)
  unfolding apply_branch create_policy
  apply_branch-Keeping spec status none =
      let order = keeping spec.policy_document in
      >>=-Along order _ _
        (or_return-Along order _ _ (
          or_return-Along order (client.create_policy _) _
            (record { run = λ w arn. puts.creates _ arn w })))
        (λ policy. pure-Along order _)
  apply_branch-Keeping spec status (some policy) =
      let order = keeping spec.policy_document in
      >>=-Along order _ _
        (or_return-Along order _ _
          (create_policy_version-Keeping spec.policy_document (to_string policy.arn)))
        (λ version. pure-Along order _)

  apply_resolved-Keeps :
      (spec : IamPolicyConfig) (status : IamPolicyStatus) (w : W)
      → Keeps spec.policy_document w (body (apply_resolved json checkers client spec status) w).1
  unfolding apply_resolved
  apply_resolved-Keeps spec status w =
      let order = keeping spec.policy_document in
      (>>=-Along order _ _
          (or_return-Along order _ _ (
            get_policy_by_name-Along client order (reading spec.policy_document) spec.policy_name
              spec.path))
          (λ policy. apply_branch-Keeping spec status policy)).run
        w

  pub apply_action-Keeps :
      (spec : IamPolicyConfig) (status : IamPolicyStatus) (w : W)
      → Keeps spec.policy_document w (apply_action json checkers client spec status w).1
  unfolding apply_action
  apply_action-Keeps spec status w = elim (Result-cases (resolve_spec json spec)) [
    | inl (e, h) ↦ rw (h, apply_validated) (λ arn. inl refl)
    | inr (spec', h) ↦
        rw (h, apply_validated, ← resolve_spec_document json spec spec' h)
          (apply_resolved-Keeps spec' status w)
  ]

  pub check_applied-Keeps :
      (desired : String) (status : IamPolicyStatus) (w : W)
      → Keeps desired w (check_applied json checkers client status w).1
  check_applied-Keeps desired status w =
      check_applied-Along json checkers client (keeping desired) status w
        ((reading desired).get status.policy_arn)

  pub check_deleted-Keeps :
      (desired : String) (status : IamPolicyStatus) (w : W)
      → Keeps desired w (check_deleted json checkers client status w).1
  check_deleted-Keeps desired status w =
      check_deleted-Along json checkers client (keeping desired) status w
        ((reading desired).get status.policy_arn)
