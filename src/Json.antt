-- ===== src/Json.antt =====
-- The use of encoding/json and of reflect.DeepEqual by the two IAM providers. Parsing is a
-- parameter: a type of parsed values with `json.Unmarshal` into an `interface{}`, `json.Valid`, and
-- the comparison of two parsed values.
use componator_aws_providers.Prelude.{String, Bool, false, Option, none, some}

pub record Json : Type 1 where
  pub Value : Type 0
  pub unmarshal : String → Option Value
  pub valid : String → Bool
  pub deep_equal : Value → Value → Bool

module _ (json : Json) where
  abbrev both_equal : Option json.Value → Option json.Value → Bool
  both_equal none b = false
  both_equal (some a) none = false
  both_equal (some a) (some b) = json.deep_equal a b

  -- `jsonEquals`
  unfoldable pub json_equals : String → String → Bool
  json_equals a b = both_equal (json.unmarshal a) (json.unmarshal b)
