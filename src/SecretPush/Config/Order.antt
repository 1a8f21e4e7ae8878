-- ===== src/SecretPush/Config/Order.antt =====
-- The order in which `resolveSpec` of the secret push provider meets the fields.
use mathlib.Core.List.{Permᴰ, Perm}
use mathlib.Core.Logic.{∥∥₁_elim}
use mathlib.Core.Bool.{Bool-set}
use componator_aws_providers.Prelude.{
  String, ◌≡◌, refl, ◌∙◌, Bool, true, false, not, Option, none, some, List, ◌∷◌, ◌&&◌, ◌==◌,
  is_empty, arith,
}
use componator_aws_providers.Go.{GoError}
use componator_aws_providers.Go.Flow.{Result, ok, err}
use componator_aws_providers.SecretPush.Config.{
  FieldSpec, SecretPushSpec, field_error, fields_error, resolve_policies, resolve_spec,
  after_fields, or_else,
}

abbrev no_error : Option GoError → Bool
no_error none = true
no_error (some e) = false

abbrev pub is_ok : Result GoError SecretPushSpec → Bool
is_ok (ok c) = true
is_ok (err e) = false

or_else-no_error : (a b : Option GoError) → no_error (or_else a b) ≡ (no_error a && no_error b)
or_else-no_error none b = refl
or_else-no_error (some e) b = refl

first_field :
    (x : String × FieldSpec) (xs : List (String × FieldSpec))
    → no_error (fields_error (x ∷ xs))
      ≡ (no_error (field_error x.0 x.1) && no_error (fields_error xs))
unfolding fields_error
first_field (name, f) xs = or_else-no_error (field_error name f) (fields_error xs)

fields_reordered :
    {xs ys : List (String × FieldSpec)}
    → Permᴰ xs ys
    → no_error (fields_error xs) ≡ no_error (fields_error ys)
fields_reordered Permᴰ.nil = refl
fields_reordered (Permᴰ.cons {a = a} {b = b} {l₁ = xs} {l₂ = ys} e p) =
    rw (first_field a xs, first_field b ys, e, fields_reordered p)
fields_reordered (Permᴰ.swap {a = a} {b = b} {a' = a'} {b' = b'} {l = xs} e f) =
    rw (first_field a (b ∷ xs), first_field b xs, first_field a' (b' ∷ xs), first_field b' xs, e, f)
      (swapped (no_error (field_error b'.0 b'.1)) (no_error (field_error a'.0 a'.1))
        (no_error (fields_error xs)))
  where
    swapped : (a b c : Bool) → (a && (b && c)) ≡ (b && (a && c))
    swapped a b c = ground arith
fields_reordered (Permᴰ.trans p q) = fields_reordered p ∙ fields_reordered q

after-is_ok :
    (c : SecretPushSpec) (e : Option GoError)
    → is_ok (after_fields e c) ≡ (no_error e && is_ok (resolve_policies c))
after-is_ok c none = refl
after-is_ok c (some e) = refl

empty_reordered : {xs ys : List (String × FieldSpec)} → Permᴰ xs ys → is_empty xs ≡ is_empty ys
empty_reordered Permᴰ.nil = refl
empty_reordered (Permᴰ.cons e p) = refl
empty_reordered (Permᴰ.swap e f) = refl
empty_reordered (Permᴰ.trans p q) = empty_reordered p ∙ empty_reordered q

policies_alike :
    (c : SecretPushSpec) (fields : List (String × FieldSpec))
    → is_ok (resolve_policies c) ≡ is_ok (resolve_policies (record c { fields = fields }))
unfolding resolve_policies
policies_alike c fields = ground arith

resolve_spec-is_ok :
    (c : SecretPushSpec)
    → is_ok (resolve_spec c) ≡ (
        not (c.secret_name == "")
        && (not (is_empty c.fields)
            && (no_error (fields_error c.fields) && is_ok (resolve_policies c))))
unfolding resolve_spec
resolve_spec-is_ok c = ground (arith, after-is_ok c (fields_error c.fields))

reordered :
    (c : SecretPushSpec) (fields : List (String × FieldSpec))
    → Permᴰ c.fields fields
    → is_ok (resolve_spec c) ≡ is_ok (resolve_spec (record c { fields = fields }))
reordered c fields d = rw (
  resolve_spec-is_ok c,
  resolve_spec-is_ok (record c { fields = fields }),
  empty_reordered d,
  fields_reordered d,
  policies_alike c fields,
)

-- Whether `resolveSpec` accepts a configuration does not depend on the order in which the loop meets
-- its fields, which Go leaves open.
pub resolve_spec-Perm :
    (c : SecretPushSpec) (fields : List (String × FieldSpec))
    → Perm c.fields fields
    → is_ok (resolve_spec c) ≡ is_ok (resolve_spec (record c { fields = fields }))
resolve_spec-Perm c fields p = ∥∥₁_elim p (Bool-set _ _) (λ d. reordered c fields d)
