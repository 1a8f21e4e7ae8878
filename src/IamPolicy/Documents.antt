-- ===== src/IamPolicy/Documents.antt =====
-- What the policy provider relies on of the IAM client, as laws over the documents in effect:
-- `effective w arn` is the document of the default version of the policy in the world `w`, as it was
-- sent, and `given` is the form in which the service gives a document: its URL encoding, which
-- leaves the texts of letters, digits and `-_.~` as they are and puts a `%`, which no JSON text has
-- outside its strings, into any other. So a text with a JSON encoding is its own encoding, and
-- `faithful` holds. The laws leave out other writers.
use componator_aws_providers.Prelude.{String, ◌≡◌, ◌⊎◌, true, Option, some}
use componator_aws_providers.Go.Flow.{ok}
use componator_aws_providers.Aws.{to_string}
use componator_aws_providers.Json.{Json, json_equals}
use componator_aws_providers.IamPolicy.Client.{
  Policy, CreatePolicyInput, CreatePolicyVersionInput, IamPolicyClient,
}

pub record KeepsDocuments {W : Type 0} (json : Json) (given : String → String)
    (client : IamPolicyClient W) (effective : W → String → String) : Type 0 where
  pub read :
      (arn : String) (w : W) (p : Policy) (d : Option String)
      → (client.get_policy arn w).0 ≡ ok (some p)
      → let id = to_string p.default_version_id in
        let w₁ = (client.get_policy arn w).1 in
        (client.get_policy_version arn id w₁).0 ≡ ok d
        → given (effective (client.get_policy_version arn id w₁).1 arn) ≡ to_string d
  pub versioned :
      (c : CreatePolicyVersionInput) (w : W) (id : Option String)
      → c.set_as_default ≡ true
      → (client.create_policy_version c w).0 ≡ ok id
      → effective (client.create_policy_version c w).1 c.policy_arn ≡ c.policy_document
  pub created :
      (c : CreatePolicyInput) (w : W) (p : Policy)
      → (client.create_policy c w).0 ≡ ok p
      → effective (client.create_policy c w).1 (to_string p.arn) ≡ c.policy_document
  pub faithful : (s t : String) → json_equals json (given s) t ≡ true → json_equals json s t ≡ true

-- A call that makes a policy or a version puts no other document in effect than the one that it is
-- given, whatever its result; the other calls leave the documents in effect as they are. So does the
-- deletion of a version, which the service refuses for the default one.
pub record PutsInEffect {W : Type 0} (client : IamPolicyClient W) (effective : W → String → String)
    : Type 0 where
  pub creates :
      (c : CreatePolicyInput) (arn : String) (w : W)
      → (effective (client.create_policy c w).1 arn ≡ effective w arn)
        ⊎ (effective (client.create_policy c w).1 arn ≡ c.policy_document)
  pub versions :
      (c : CreatePolicyVersionInput) (arn : String) (w : W)
      → (effective (client.create_policy_version c w).1 arn ≡ effective w arn)
        ⊎ (effective (client.create_policy_version c w).1 arn ≡ c.policy_document)
  pub list_keeps :
      (path arn : String) (w : W) → effective (client.list_policies path w).1 arn ≡ effective w arn
  pub get_keeps :
      (id arn : String) (w : W) → effective (client.get_policy id w).1 arn ≡ effective w arn
  pub list_versions_keeps :
      (id arn : String) (w : W)
      → effective (client.list_policy_versions id w).1 arn ≡ effective w arn
  pub get_version_keeps :
      (id version arn : String) (w : W)
      → effective (client.get_policy_version id version w).1 arn ≡ effective w arn
  pub delete_version_keeps :
      (id : String) (version : Option String) (arn : String) (w : W)
      → effective (client.delete_policy_version id version w).1 arn ≡ effective w arn

-- The document in effect is the desired one, or agrees with it as JSON.
abbrev pub Agrees : Json → String → String → Type 0
Agrees json effective desired = (json_equals json effective desired ≡ true) ⊎ (effective ≡ desired)
