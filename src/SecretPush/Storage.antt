-- ===== src/SecretPush/Storage.antt =====
-- What the secret push provider relies on of the Secrets Manager client and of encoding/json, as laws
-- over the texts of the secrets. `stored w n` is the text of the secret `n` in the world `w`, if it is
-- there; `read t k` is the value of `k` in the JSON object `t`, if it has one. The laws leave out
-- other writers.
use componator_aws_providers.Prelude.{true}
use componator_aws_providers.Prelude.{
  String, ◌≡◌, ◌≢◌, refl, inl, inr, Option, none, some, List, [], ◌∷◌, ◌==◌, if◌then◌else◌,
  Bool-cases,
}
use componator_aws_providers.Prelude.Texts.{IsNodup}
use componator_aws_providers.Go.{GoError}
use componator_aws_providers.Go.Flow.{ok, err}
use componator_aws_providers.Aws.{to_string}
use componator_aws_providers.SecretPush.Config.{FieldSpec}
use componator_aws_providers.SecretPush.Client.{
  CreateSecretInput, GetRandomPasswordInput, SecretsClient,
}
use componator_aws_providers.SecretPush.Calls.{Marshal, is_resource_not_found}
use componator_aws_providers.SecretPush.Build.Data.{Filled}

-- The value of a key in a map.
unfoldable pub lookup : {A : Type 0} → String → List (String × A) → Option A
lookup a [] = none
lookup a ((k, v) ∷ xs) = let rest = lookup a xs in if k == a then some v else rest

abbrev pub names : {A : Type 0} → List (String × A) → List String
names [] = []
names ((k, v) ∷ xs) = k ∷ names xs

pub record StoresSecrets {W : Type 0} (client : SecretsClient W)
    (stored : W → String → Option String) : Type 0 where
  pub create_stores :
      (c : CreateSecretInput) (w : W) (out : Option String × Option String)
      → (client.create_secret c w).0 ≡ ok out
      → stored (client.create_secret c w).1 c.name ≡ some c.secret_string
  pub update_stores :
      (n text : String) (w : W) (out : Option String × Option String)
      → (client.update_secret n text w).0 ≡ ok out
      → stored (client.update_secret n text w).1 n ≡ some text
  pub described :
      (n : String) (w : W) (arn found_name : Option String)
      → (client.describe_secret n w).0 ≡ ok (arn, found_name)
      → to_string arn ≢ ""
      → stored w n ≢ none
  pub describe_keeps :
      (id n : String) (w : W) → stored (client.describe_secret id w).1 n ≡ stored w n
  pub password_keeps :
      (g : GetRandomPasswordInput) (n : String) (w : W)
      → stored (client.get_random_password g w).1 n ≡ stored w n

-- A secret that is there is described, by an ARN.
pub record FindsSecrets {W : Type 0} (client : SecretsClient W)
    (stored : W → String → Option String) : Type 0 where
  pub named :
      (n : String) (w : W) (arn found_name : Option String)
      → stored w n ≢ none
      → (client.describe_secret n w).0 ≡ ok (arn, found_name)
      → to_string arn ≢ ""
  pub missing :
      (n : String) (w : W) (e : GoError)
      → (client.describe_secret n w).0 ≡ err e
      → is_resource_not_found e ≡ true
      → stored w n ≡ none

-- A map that is written as a JSON text is read back from it.
abbrev pub ReadsBack : Marshal → (String → String → Option String) → Type 0
ReadsBack marshal read =
    (entries : List (String × String)) (text : String)
    → IsNodup (names entries)
    → marshal entries ≡ ok text
    → (k : String) → read text k ≡ lookup k entries

-- The value under a name, for the field of that name: none for no field, and the static value of a
-- field that has one.
abbrev pub IsValueOf : Option FieldSpec → Option String → Type 0
IsValueOf none v = v ≡ none
IsValueOf (some f) none = ⊥
IsValueOf (some f) (some v) = f.value ≢ "" → v ≡ f.value

-- The stored text is there and has exactly the names of the fields, with their values.
abbrev pub Holds :
    (String → String → Option String) → List (String × FieldSpec) → Option String → Type 0
Holds read fields none = ⊥
Holds read fields (some text) = (k : String) → IsValueOf (lookup k fields) (read text k)

pub names-Filled :
    (fields : List (String × FieldSpec)) (entries : List (String × String))
    → Filled fields entries
    → names entries ≡ names fields
names-Filled [] [] h = refl
names-Filled [] (e ∷ entries) h = absurd h
names-Filled (f ∷ fields) [] h = absurd h
names-Filled ((name, f) ∷ fields) ((key, value) ∷ entries) (same, static, rest) =
    rw (same, names-Filled fields entries rest) refl

pub Filled-IsValueOf :
    (fields : List (String × FieldSpec)) (entries : List (String × String))
    → Filled fields entries
    → (k : String) → IsValueOf (lookup k fields) (lookup k entries)
unfolding lookup
Filled-IsValueOf [] [] h k = refl
Filled-IsValueOf [] (e ∷ entries) h k = absurd h
Filled-IsValueOf (f ∷ fields) [] h k = absurd h
Filled-IsValueOf ((name, f) ∷ fields) ((key, value) ∷ entries) (same, static, rest) k =
    elim (Bool-cases (name == k)) [
      | inl e ↦ rw (same, e) static
      | inr e ↦ rw (same, e) (Filled-IsValueOf fields entries rest k)
    ]
