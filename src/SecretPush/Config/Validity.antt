-- ===== src/SecretPush/Config/Validity.antt =====
-- What `resolveSpec` of the secret push provider accepts.
use componator_aws_providers.Prelude.{
  ℕ, ◌≤◌, String, ◌≡◌, refl, ◌≢◌, ◌↔◌, ◌⊎◌, inl, inr, none, some, List, [], ◌∷◌, ◌==◌, All, arith,
  eq_iff, Option-cases, if◌then◌else◌,
}
use componator_aws_providers.Prelude.Int.{ℤ, pos, negsuc}
use componator_aws_providers.Go.Flow.{ok}
use componator_aws_providers.SecretPush.Config.{
  if_not_exists, always_update, delete, retain, GeneratorSpec, FieldSpec, SecretPushSpec,
  generator_error, field_error, fields_error, resolve_enum_value, resolve_spec,
}

-- A static value and no generator, or a generator of 1 to 4096 characters and no value.
abbrev pub IsFieldValid : FieldSpec → Type 0
IsFieldValid f =
    ((f.value ≢ "") × (f.generator ≡ none))
    ⊎ ((f.value ≡ "")
        × ((g : GeneratorSpec) × (n : ℕ) × (f.generator ≡ some g)
            × (g.password_length ≡ pos n)
            × (1 ≤ n)
            × (n ≤ 4096)))

generator_in_range :
    (name : String) (g : GeneratorSpec) (z : ℤ)
    → g.password_length ≡ z
    → generator_error name (some g) ≡ none
    → (n : ℕ) × (z ≡ pos n) × (1 ≤ n) × (n ≤ 4096)
generator_in_range name g (pos n) e h = (n, refl, ground arith, ground arith)
generator_in_range name g (negsuc n) e h = absurd (ground arith)

-- The loop accepts a field exactly if it is valid.
pub field_error-none_iff :
    (name : String) (f : FieldSpec) → (field_error name f ≡ none) ↔ IsFieldValid f
unfolding field_error
field_error-none_iff name f = (
  λ h. elim (Option-cases f.generator) [
    | inl e ↦ inl ((λ v. ground (arith, (eq_iff f.value "").1 v)), e)
    | inr (g, e) ↦
        let (n, len, low, high) = generator_in_range name g g.password_length refl (ground arith) in
        inr (ground (arith, eq_iff f.value ""), (g, n, e, len, low, high))
  ],
  λ v. ground (arith, v, eq_iff f.value ""),
)

abbrev pub AllFieldsValid : List (String × FieldSpec) → Type 0
AllFieldsValid = All λ nf. IsFieldValid nf.1

fields_error-none_iff :
    (fields : List (String × FieldSpec)) → (fields_error fields ≡ none) ↔ AllFieldsValid fields
unfolding fields_error
fields_error-none_iff [] = (λ h. tt, λ v. refl)
fields_error-none_iff ((name, f) ∷ fields) =
    let one = field_error-none_iff name f in
    let rest = fields_error-none_iff fields in
    (
      λ h. (one.0 (ground arith), rest.0 (ground arith)),
      λ (v, vs). ground (arith, one.1 v, rest.1 vs),
    )

-- What a configuration has to have.
pub record IsValid (c : SecretPushSpec) : Type 0 where
  pub named : c.secret_name ≢ ""
  pub filled : c.fields ≢ []
  pub fields : AllFieldsValid c.fields
  pub update :
      (c.update_policy ≡ "") ⊎ (c.update_policy ≡ if_not_exists) ⊎ (c.update_policy ≡ always_update)
  pub deletion :
      (c.deletion_policy ≡ "") ⊎ (c.deletion_policy ≡ delete) ⊎ (c.deletion_policy ≡ retain)

-- The configuration with the two defaults put in.
abbrev pub with_defaults : SecretPushSpec → SecretPushSpec
with_defaults c = record c {
  update_policy = if c.update_policy == "" then if_not_exists else c.update_policy;
  deletion_policy = if c.deletion_policy == "" then delete else c.deletion_policy;
}

-- `resolveEnumValue` at two valid values.
resolve_enum-ok_iff :
    (v name a b r : String)
    → (resolve_enum_value v name a (a ∷ b ∷ []) ≡ ok r)
      ↔ (((v ≡ "") ⊎ (v ≡ a) ⊎ (v ≡ b)) × (r ≡ (if v == "" then a else v)))
unfolding resolve_enum_value
resolve_enum-ok_iff v name a b r = (
  λ h. (ground (arith, eq_iff v "", eq_iff a v, eq_iff b v), ground (arith, eq_iff v "")),
  λ (c, e). ground (arith, c, e, eq_iff v "", eq_iff a v, eq_iff b v),
)

-- `resolveSpec` accepts exactly the configurations with a name, with fields that are all valid, and
-- with known policies or none; what it accepts gets the default policies.
pub resolve_spec-IsValid :
    (c d : SecretPushSpec) → (resolve_spec c ≡ ok d) ↔ (IsValid c × (d ≡ with_defaults c))
unfolding resolve_spec
resolve_spec-IsValid c d =
    let (fields_to, fields_from) = fields_error-none_iff c.fields in
    let u = resolve_enum-ok_iff c.update_policy "updatePolicy" if_not_exists always_update in
    let v = resolve_enum-ok_iff c.deletion_policy "deletionPolicy" delete retain in
    (
      λ h.
          let (update, du) = (u d.update_policy).0 (ground arith) in
          let (deletion, dd) = (v d.deletion_policy).0 (ground arith) in
          (
            record {
              named = λ e. ground (arith, (eq_iff c.secret_name "").1 e);
              filled = λ e. ground (arith, e);
              fields = fields_to (ground arith);
              update = update;
              deletion = deletion;
            },
            ground (arith, du, dd),
          ),
      λ (valid, e). ground (
        arith,
        valid.named,
        valid.filled,
        fields_from valid.fields,
        (u _).1 (valid.update, refl),
        (v _).1 (valid.deletion, refl),
        eq_iff c.secret_name "",
      ),
    )
