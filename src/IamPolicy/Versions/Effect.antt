-- ===== src/IamPolicy/Versions/Effect.antt =====
-- Which document is in effect after `createPolicyVersion`.
use componator_aws_providers.Prelude.{
  String, ◌≡◌, refl, inl, inr, true, Option, none, some, Bool-cases,
}
use componator_aws_providers.Go.{GoError}
use componator_aws_providers.Go.Flow.{Result, ok, err, rescue, continue, Result-cases}
use componator_aws_providers.Aws.{to_string, is_not_found_error}
use componator_aws_providers.Json.{Json, json_equals}
use componator_aws_providers.IamPolicy.Client.{Policy, CreatePolicyVersionInput, IamPolicyClient}
use componator_aws_providers.IamPolicy.Calls.{get_policy_by_arn}
use componator_aws_providers.IamPolicy.Documents.{KeepsDocuments, Agrees}
use componator_aws_providers.IamPolicy.Versions.{
  default_document, delete_oldest_policy_version, get_current_policy_document, new_version,
  create_policy_version,
}

module _ {W : Type 0} (json : Json) (given : String → String) (client : IamPolicyClient W)
    (effective : W → String → String) (keeps : KeepsDocuments json given client effective)
    (arn : String) where
  -- What was read is the document in effect, in the form that the service gives it.
  abbrev IsRead : Result GoError (String × String) × W → Type 0
  IsRead (err e, w) = Unit
  IsRead (ok (document, id), w) = given (effective w arn) ≡ document

  default_document-IsRead :
      (w : W) (p : Option Policy)
      → (client.get_policy arn w).0 ≡ ok p
      → IsRead (default_document client arn p (client.get_policy arn w).1)
  default_document-IsRead w none h = tt
  default_document-IsRead w (some p) h =
      elim (Result-cases
        (client.get_policy_version arn (to_string p.default_version_id)
          (client.get_policy arn w).1).0) [
            | inl (e, g) ↦ rw (g, rescue, continue) tt
            | inr (d, g) ↦ rw (g, rescue, continue) (keeps.read arn w p d h g)
          ]

  get_current-IsRead : (w : W) → IsRead (get_current_policy_document client arn w)
  unfolding get_current_policy_document get_policy_by_arn
  get_current-IsRead w = elim (Result-cases (client.get_policy arn w).0) [
    | inr (p, h) ↦ rw (h, rescue, continue) (default_document-IsRead w p h)
    | inl (e, h) ↦ elim (Bool-cases (is_not_found_error (some e))) [
      | inl missing ↦ rw (h, rescue, continue) (rw (missing, continue) tt)
      | inr other ↦ rw (h, rescue, continue) (rw (other, continue) tt)
    ]
  ]

  -- If the run ended without error, the document in effect agrees with the desired one.
  abbrev pub InEffect : String → Result GoError String × W → Type 0
  InEffect desired (err e, w) = Unit
  InEffect desired (ok id, w) = Agrees json (effective w arn) desired

  new_version-InEffect :
      (desired : String) (w : W) → InEffect desired (new_version client arn desired w)
  new_version-InEffect desired w =
      elim (Result-cases (delete_oldest_policy_version client arn w).0) [
        | inl (e, h) ↦ rw (h, rescue, continue) tt
        | inr (u, h) ↦
            let w₁ = (delete_oldest_policy_version client arn w).1 in
            let input : CreatePolicyVersionInput = record {
              policy_arn = arn;
              policy_document = desired;
              set_as_default = true;
            } in
            elim (Result-cases (client.create_policy_version input w₁).0) [
              | inl (e, g) ↦ rw (h, rescue, continue) (rw (g, rescue, continue) tt)
              | inr (id, g) ↦
                  rw (h, rescue, continue)
                    (rw (g, rescue, continue) (inr (keeps.versioned input w₁ id refl g)))
            ]
      ]

  -- If `createPolicyVersion` succeeds, with a new version or without, then the document in effect is
  -- the desired one, or agrees with it as JSON.
  pub create_policy_version-InEffect :
      (desired : String) (w : W)
      → InEffect desired (create_policy_version client arn json desired w)
  unfolding create_policy_version
  create_policy_version-InEffect desired w =
      let current = get_current-IsRead w in
      elim (Result-cases (get_current_policy_document client arn w).0) [
        | inl (e, h) ↦ rw (h, rescue, continue) tt
        | inr ((document, id), h) ↦ elim (Bool-cases (json_equals json document desired)) [
          | inl same ↦
              let e = rw h at current in
              rw (h, rescue, continue) (rw same (inl (keeps.faithful _ desired (rw (e) same))))
          | inr differ ↦ rw (h, rescue, continue) (rw differ (new_version-InEffect desired _))
        ]
      ]
