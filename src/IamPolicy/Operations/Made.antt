-- ===== src/IamPolicy/Operations/Made.antt =====
-- iampolicy/operations.go: the versions that `applyAction` makes where the service gives the documents
-- in the URL encoding.
use componator_aws_providers.Prelude.{
  ℕ, suc, String, ◌≡◌, refl, ap, ◌∙◌, inl, inr, true, Option, none, some, List, Bool-cases,
}
use componator_aws_providers.Go.{GoError, Message}
use componator_aws_providers.Go.Flow.{Result, ok, err, rescue, continue, merge, body, Result-cases}
use componator_aws_providers.Go.Along.{Preorder}
use componator_aws_providers.Aws.{to_string, to_iam_tags, Checker, is_not_found_error}
use componator_aws_providers.Toolkit.{
  ActionResult, action_success, action_failure, action_result_for_error,
}
use componator_aws_providers.Json.{Json, json_equals}
use componator_aws_providers.IamPolicy.Config.{IamPolicyConfig, IamPolicyStatus, resolve_spec}
use componator_aws_providers.IamPolicy.Client.{
  Policy, CreatePolicyInput, CreatePolicyVersionInput, IamPolicyClient,
}
use componator_aws_providers.IamPolicy.Calls.{get_policy_by_name, get_policy_by_arn, create_policy}
use componator_aws_providers.IamPolicy.Versions.{
  default_document, get_current_policy_document, delete_oldest_policy_version, new_version,
  create_policy_version,
}
use componator_aws_providers.IamPolicy.Operations.{
  apply_branch, apply_resolved, apply_validated, apply_action,
}
use componator_aws_providers.IamPolicy.Operations.Reading.{
  ReadsAlong, get_policy_by_name-Along, delete_oldest-Along, get_current-Along,
}

-- A service that counts the versions that were ever made: a new policy has its first one. It gives
-- a document in the URL encoding, which for a JSON object is no JSON.
pub record EncodesDocuments (json : Json) {W : Type 0} (client : IamPolicyClient W) (made : W → ℕ)
    : Type 0 where
  pub created :
      (c : CreatePolicyInput) (w : W) (p : Policy)
      → (client.create_policy c w).0 ≡ ok p
      → made (client.create_policy c w).1 ≡ suc (made w)
  pub versioned :
      (c : CreatePolicyVersionInput) (w : W) (id : Option String)
      → (client.create_policy_version c w).0 ≡ ok id
      → made (client.create_policy_version c w).1 ≡ suc (made w)
  pub encoded :
      (arn id : String) (w : W) (d : Option String)
      → (client.get_policy_version arn id w).0 ≡ ok d
      → json.unmarshal (to_string d) ≡ none
  pub reads : ReadsAlong client (λ w w'. made w' ≡ made w)

module _ {W : Type 0} (json : Json) (client : IamPolicyClient W) (made : W → ℕ)
    (encodes : EncodesDocuments json client made) where
  abbrev counting : Preorder (λ (w w' : W). made w' ≡ made w)
  counting = record { same = λ w. refl; trans = λ u v w first second. second ∙ first }

  -- The document that was read is no JSON.
  abbrev IsEncoded : Result GoError (String × String) × W → Type 0
  IsEncoded (err e, w) = Unit
  IsEncoded (ok (document, id), w) = json.unmarshal document ≡ none

  default_document-IsEncoded :
      (arn : String) (p : Option Policy) (w : W) → IsEncoded (default_document client arn p w)
  default_document-IsEncoded arn none w = tt
  default_document-IsEncoded arn (some p) w =
      let id = to_string p.default_version_id in
      elim (Result-cases (client.get_policy_version arn id w).0) [
        | inl (e, g) ↦ rw (g, rescue, continue) tt
        | inr (d, g) ↦ rw (g, rescue, continue) (encodes.encoded arn id w d g)
      ]

  get_current-IsEncoded :
      (arn : String) (w : W) → IsEncoded (get_current_policy_document client arn w)
  unfolding get_current_policy_document get_policy_by_arn
  get_current-IsEncoded arn w = elim (Result-cases (client.get_policy arn w).0) [
    | inr (p, h) ↦ rw (h, rescue, continue) (default_document-IsEncoded arn p _)
    | inl (e, h) ↦ elim (Bool-cases (is_not_found_error (some e))) [
      | inl missing ↦ rw (h, rescue, continue) (rw (missing, continue) tt)
      | inr other ↦ rw (h, rescue, continue) (rw (other, continue) tt)
    ]
  ]

  -- The run made one version if it ended without error.
  abbrev MakesOne : W → Result GoError String × W → Type 0
  MakesOne w₀ (err e, w) = Unit
  MakesOne w₀ (ok id, w) = made w ≡ suc (made w₀)

  new_version-MakesOne :
      (arn desired : String) (w₀ w : W)
      → made w ≡ made w₀
      → MakesOne w₀ (new_version client arn desired w)
  new_version-MakesOne arn desired w₀ w same =
      elim (Result-cases (delete_oldest_policy_version client arn w).0) [
        | inl (e, h) ↦ rw (h, rescue, continue) tt
        | inr (u, h) ↦
            let w₁ = (delete_oldest_policy_version client arn w).1 in
            let kept = (delete_oldest-Along client counting encodes.reads arn).run w in
            let input : CreatePolicyVersionInput = record {
              policy_arn = arn;
              policy_document = desired;
              set_as_default = true;
            } in
            elim (Result-cases (client.create_policy_version input w₁).0) [
              | inl (e, g) ↦ rw (h, rescue, continue) (rw (g, rescue, continue) tt)
              | inr (id, g) ↦
                  rw (h, rescue, continue)
                    (rw (g, rescue, continue)
                      (encodes.versioned input w₁ id g ∙ ap (λ n. suc n) (kept ∙ same)))
            ]
      ]

  create_policy_version-MakesOne :
      (arn desired : String) (w₀ w : W)
      → made w ≡ made w₀
      → MakesOne w₀ (create_policy_version client arn json desired w)
  unfolding create_policy_version json_equals
  create_policy_version-MakesOne arn desired w₀ w same =
      let encoded = get_current-IsEncoded arn w in
      let kept = (get_current-Along client counting encodes.reads arn).run w in
      elim (Result-cases (get_current_policy_document client arn w).0) [
        | inl (e, h) ↦ rw (h, rescue, continue) tt
        | inr ((document, id), h) ↦
            rw (h, rescue, continue)
              (rw (rw h at encoded) (new_version-MakesOne arn desired w₀ _ (kept ∙ same)))
      ]

  module _ (checkers : List Checker) where
    -- A success made one version.
    abbrev Makes : W → ActionResult IamPolicyStatus × W → Type 0
    Makes w₀ (action_success s m, w) = made w ≡ suc (made w₀)
    Makes w₀ (action_failure s m, w) = Unit
    Makes w₀ (action_result_for_error s e c, w) = Unit

    apply_branch-Makes :
        (spec : IamPolicyConfig) (status : IamPolicyStatus) (policy : Option Policy) (w₀ w : W)
        → made w ≡ made w₀
        → Makes w₀ (body (apply_branch json checkers client spec status policy) w)
    unfolding apply_branch create_policy
    apply_branch-Makes spec status none w₀ w same =
        let input : CreatePolicyInput = record {
          policy_name = spec.policy_name;
          policy_document = spec.policy_document;
          path = spec.path;
          description = spec.description;
          tags = to_iam_tags spec.tags;
        } in
        elim (Result-cases (client.create_policy input w).0) [
          | inl (e, h) ↦ rw (h, rescue, continue, merge) tt
          | inr (p, h) ↦
              rw (h, rescue, continue, merge) (encodes.created input w p h ∙ ap (λ n. suc n) same)
        ]
    apply_branch-Makes spec status (some p) w₀ w same =
        let arn = to_string p.arn in
        let one = create_policy_version-MakesOne arn spec.policy_document w₀ w same in
        elim (Result-cases (create_policy_version client arn json spec.policy_document w).0) [
          | inl (e, h) ↦ rw (h, rescue, continue, merge) tt
          | inr (id, h) ↦ rw (h, rescue, continue, merge) (rw h at one)
        ]

    apply_resolved-Makes :
        (spec : IamPolicyConfig) (status : IamPolicyStatus) (w : W)
        → Makes w (body (apply_resolved json checkers client spec status) w)
    unfolding apply_resolved
    apply_resolved-Makes spec status w =
        let name = spec.policy_name in
        let kept = (get_policy_by_name-Along client counting encodes.reads name spec.path).run w in
        elim (Result-cases (get_policy_by_name client name spec.path w).0) [
          | inl (e, h) ↦ rw (h, rescue, continue, merge) tt
          | inr (p, h) ↦ rw (h, rescue, continue, merge) (apply_branch-Makes spec status p w _ kept)
        ]

    apply_action-Makes :
        (spec : IamPolicyConfig) (status : IamPolicyStatus) (w : W)
        → Makes w (apply_action json checkers client spec status w)
    unfolding apply_action
    apply_action-Makes spec status w = elim (Result-cases (resolve_spec json spec)) [
      | inl (e, h) ↦ rw (h, apply_validated) tt
      | inr (spec', h) ↦ rw (h, apply_validated) (apply_resolved-Makes spec' status w)
    ]

    -- Where the service gives the documents in the URL encoding, two successful applications of the
    -- same configuration, one after the other, make two versions: the second does not find that the
    -- document in effect is the one that the first sent.
    pub apply_action_makes_versions :
        (spec : IamPolicyConfig) (status s s' : IamPolicyStatus) (m m' : Message) (w : W)
        → (apply_action json checkers client spec status w).0 ≡ action_success s m
        → (apply_action json checkers client spec s
            (apply_action json checkers client spec status w).1).0
          ≡ action_success s' m'
        → let w₁ = (apply_action json checkers client spec status w).1 in
          let w₂ = (apply_action json checkers client spec s w₁).1 in
          (made w₁ ≡ suc (made w)) × (made w₂ ≡ suc (suc (made w)))
    apply_action_makes_versions spec status s s' m m' w first second =
        let w₁ = (apply_action json checkers client spec status w).1 in
        let once : made w₁ ≡ suc (made w) = rw first at (apply_action-Makes spec status w) in
        (once, (rw second at (apply_action-Makes spec s w₁)) ∙ ap (λ n. suc n) once)
