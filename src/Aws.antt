-- ===== src/Aws.antt =====
-- What the handlers share of the AWS SDK: optional fields, tags, and the classification of errors.
use componator_aws_providers.Prelude.{
  String, Bool, true, false, Option, none, some, List, [], ◌∷◌, if◌then◌else◌,
}
use componator_aws_providers.Go.{Exception, SdkError, GoError, as_sdk}

-- `aws.ToString`: the text, or the empty text for a nil pointer.
abbrev pub to_string : Option String → String
to_string none = ""
to_string (some s) = s

-- `types.Tag`
pub record Tag : Type 0 where
  pub key : String
  pub value : String

-- `toIAMTags`. A map is the list of its entries in the order in which the loop meets them, and the
-- nil slice is the empty list.
unfoldable pub to_iam_tags : List (String × String) → List Tag
to_iam_tags [] = []
to_iam_tags ((k, v) ∷ tags) = record { key = k; value = v } ∷ to_iam_tags tags

-- `aws.Ternary`
pub data Ternary : Type 0 where
  unknown_ternary : Ternary
  false_ternary : Ternary
  true_ternary : Ternary

abbrev pub is_true_ternary : Ternary → Bool
is_true_ternary true_ternary = true
is_true_ternary _ = false

-- `IsErrorRetryable` of one checker.
abbrev pub Checker : Type 0
Checker = GoError → Ternary

-- `controller.ErrorClassifier`; `none` is a nil error.
abbrev pub Classifier : Type 0
Classifier = Option GoError → Bool

-- The loop of `isRetryable` over the checkers.
unfoldable pub any_retryable : List Checker → GoError → Bool
any_retryable [] e = false
any_retryable (c ∷ cs) e =
    let rest = any_retryable cs e in if is_true_ternary (c e) then true else rest

-- `isRetryable`; the checkers stand for `retry.DefaultRetryables` of the SDK.
unfoldable pub is_retryable : List Checker → Classifier
unfolding any_retryable
is_retryable checkers none = false
is_retryable checkers (some e) = any_retryable checkers e

abbrev pub is_exception : Exception → Exception → Bool
is_exception Exception.no_such_entity Exception.no_such_entity = true
is_exception Exception.resource_not_found Exception.resource_not_found = true
is_exception Exception.db_instance_not_found Exception.db_instance_not_found = true
is_exception Exception.invalid_db_instance_state Exception.invalid_db_instance_state = true
is_exception _ _ = false

abbrev pub has_exception : Exception → Option SdkError → Bool
has_exception x none = false
has_exception x (some e) = is_exception x e.exception

-- `isNotFoundError` of the IAM providers; `none` is a nil error.
unfoldable pub is_not_found_error : Option GoError → Bool
unfolding as_sdk
is_not_found_error none = false
is_not_found_error (some e) = has_exception Exception.no_such_entity (as_sdk e)
