-- ===== src/Rds/Conversion.antt =====
-- rds/conversion.go: between values and the pointers of the SDK. A pointer is an optional value.
use componator_aws_providers.Prelude.{String, Bool, false, Option, none, some, ◌==◌, if◌then◌else◌}
use componator_aws_providers.Prelude.Int.{ℤ, pos, is_nonpos}

-- `stringPtr`, `int32Ptr` and `boolPtr`
abbrev pub string_ptr : String → Option String
string_ptr s = some s

abbrev pub int32_ptr : ℤ → Option ℤ
int32_ptr i = some i

abbrev pub bool_ptr : Bool → Option Bool
bool_ptr b = some b

-- `optionalStringPtr`
unfoldable pub optional_string_ptr : String → Option String
optional_string_ptr s = if s == "" then none else some s

-- `passthroughPositiveInt32Ptr`
unfoldable pub passthrough_positive_int32_ptr : Option ℤ → Option ℤ
passthrough_positive_int32_ptr none = none
passthrough_positive_int32_ptr (some i) = if is_nonpos i then none else some i

-- `passthroughInt32Ptr` and `passthroughBoolPtr`
unfoldable pub passthrough_int32_ptr : Option ℤ → Option ℤ
passthrough_int32_ptr none = none
passthrough_int32_ptr (some i) = some i

unfoldable pub passthrough_bool_ptr : Option Bool → Option Bool
passthrough_bool_ptr none = none
passthrough_bool_ptr (some b) = some b

-- `stringValue`, `int32Value` and `boolValue`
unfoldable pub string_value : Option String → String
string_value none = ""
string_value (some s) = s

unfoldable pub int32_value : Option ℤ → ℤ
int32_value none = pos 0
int32_value (some i) = i

unfoldable pub bool_value : Option Bool → Bool
bool_value none = false
bool_value (some b) = b

-- `types.Endpoint`
pub record Endpoint : Type 0 where
  pub address : Option String
  pub port : Option ℤ

-- `endpointAddress`
unfoldable pub endpoint_address : Option Endpoint → String
unfolding string_value
endpoint_address none = ""
endpoint_address (some e) = string_value e.address

-- `endpointPort`
unfoldable pub endpoint_port : Option Endpoint → ℤ
unfolding int32_value
endpoint_port none = pos 0
endpoint_port (some e) = int32_value e.port
