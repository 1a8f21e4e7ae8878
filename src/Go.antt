-- ===== src/Go.antt =====
-- What the handlers use of Go: errors and their wrapping, formatted texts, and functions with an
-- early return over a changing world.
pub mod Flow
pub mod Along
use componator_aws_providers.Prelude.{String, Option, none, some, List}
use componator_aws_providers.Prelude.Int.{ℤ}

-- The exception types of the AWS SDK that the source asks for with `errors.As`.
pub data Exception : Type 0 where
  no_such_entity : Exception
  resource_not_found : Exception
  db_instance_not_found : Exception
  invalid_db_instance_state : Exception
  other : Exception

-- An error of the AWS SDK, as the source can observe it: the exception type that `errors.As` finds
-- in it, and its message. `code` stands for all else that the SDK's retry checkers may look at.
pub record SdkError : Type 0 where
  pub exception : Exception
  pub message : String
  pub code : String

-- The arguments of a formatted text.
pub data Arg : Type 0 where
  str : String → Arg
  int : ℤ → Arg
  strings : List String → Arg

-- `errorf f args` is `fmt.Errorf(f, args...)` with no `%w`; in `wrapf f args e` the last verb of
-- the format is `%w`, and it stands for `e`; in `textf f e` the one argument is the text of `e`, by
-- `%s` or `%v`, and `e` is not wrapped.
pub data GoError : Type 0 where
  sdk : SdkError → GoError
  errorf : String → List Arg → GoError
  wrapf : String → List Arg → GoError → GoError
  textf : String → GoError → GoError

-- `fmt.Sprintf(f, args...)`, kept as the format with its arguments; in `text_err` the one argument
-- is an error.
pub data Message : Type 0 where
  text : String → List Arg → Message
  text_err : String → GoError → Message

-- `errors.As` for a pointer to an SDK exception: it goes down the chain of wrapped errors.
unfoldable pub as_sdk : GoError → Option SdkError
as_sdk (sdk e) = some e
as_sdk (errorf f args) = none
as_sdk (wrapf f args e) = as_sdk e
as_sdk (textf f e) = none
