-- ===== src/Rds/Errors.antt =====
-- rds/aws_rds.go: the errors of the RDS client that the provider knows.
pub mod Search
use componator_aws_providers.Prelude.{
  ℕ, ◌+◌, ◌-◌, String, Bool, true, false, Option, none, some, List, [], ◌∷◌, map, ◌&&◌, leb, nat_eq,
  if◌then◌else◌,
}
use Prim.Native.Char.{code}
use componator_aws_providers.Go.{Exception, SdkError, GoError, as_sdk}
use componator_aws_providers.Aws.{has_exception}

-- The code points of a text.
abbrev pub codes : String → List ℕ
codes String.[] = []
codes (String.◌∷◌ c s) = code c ∷ codes s

-- `unicode.ToLower`, as far as its result can be an ASCII letter: the capitals of ASCII, the dotted
-- capital I (U+0130) and the Kelvin sign (U+212A). Every other code point stays as it is here, and
-- goes to one that is not ASCII there.
unfoldable pub to_lower : ℕ → ℕ
to_lower c =
    if leb 65 c && leb c 90
    then c + 32
    else if nat_eq c 0x130
    then 105
    else if nat_eq c 0x212a
    then 107
    else c

-- Whether the second text begins with the first.
unfoldable pub is_prefix : List ℕ → List ℕ → Bool
is_prefix [] s = true
is_prefix (c ∷ p) [] = false
is_prefix (c ∷ p) (d ∷ s) = nat_eq c d && is_prefix p s

-- `strings.Contains(s, p)`
unfoldable pub contains : List ℕ → List ℕ → Bool
unfolding is_prefix
contains [] p = is_prefix p []
contains (c ∷ s) p = let rest = contains s p in if is_prefix p (c ∷ s) then true else rest

-- `isInstanceNotFoundError`; `none` is a nil error.
unfoldable pub is_instance_not_found_error : Option GoError → Bool
unfolding as_sdk
is_instance_not_found_error none = false
is_instance_not_found_error (some e) = has_exception Exception.db_instance_not_found (as_sdk e)

abbrev pub being_deleted : Option SdkError → Bool
being_deleted none = false
being_deleted (some e) =
    has_exception Exception.invalid_db_instance_state (some e)
    && contains (map to_lower (codes e.message)) (codes "already being deleted")

-- `isInstanceAlreadyBeingDeletedError`; `none` is a nil error.
unfoldable pub is_instance_already_being_deleted_error : Option GoError → Bool
unfolding as_sdk contains to_lower
is_instance_already_being_deleted_error none = false
is_instance_already_being_deleted_error (some e) = being_deleted (as_sdk e)
