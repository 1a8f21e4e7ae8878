-- ===== src/Manager/Names.antt =====
-- When two registered names are the same.
use Prim.Native.String.{count, ◌++◌ as ◌<>◌}
use text.Mathlib.TextLemmas.{length-append, append_cancel_left, append_cancel_right}
use componator_aws_providers.Prelude.{
  ◌+◌, String, ◌≡◌, refl, sym, ap, ◌∙◌, inl, inr, true, false, ◌==◌, arith, eq_iff, Bool-cases,
}
use componator_aws_providers.Prelude.Texts.{mem, IsNodup}
use componator_aws_providers.Registration.{registered_name}
use componator_aws_providers.Manager.{build_provider_name, provider_names}

abbrev joined : String → String → String
joined prefix base = (prefix <> "-") <> base

count-joined : (prefix base : String) → count (joined prefix base) ≡ count prefix + 1 + count base
count-joined prefix base =
    length-append (prefix <> "-") base ∙ ap (λ n. n + count base) (length-append prefix "-")

joined_nonempty : (prefix base : String) → (joined prefix base == "") ≡ false
joined_nonempty prefix base = elim (Bool-cases (joined prefix base == "")) [
  | inr differ ↦ differ
  | inl same ↦
      let e : count (joined prefix base) ≡ 0 = ap count ((eq_iff (joined prefix base) "").0 same) in
      absurd (omega (arith, e, count-joined prefix base))
]

-- The name of a provider, by the prefix.
abbrev name : String → String → String
name prefix base = registered_name base (build_provider_name prefix base)

name_of_prefix :
    (prefix base : String) → (prefix == "") ≡ false → name prefix base ≡ joined prefix base
unfolding build_provider_name registered_name
name_of_prefix prefix base given = rw (given, joined_nonempty prefix base)

name_default : (prefix base : String) → (prefix == "") ≡ true → name prefix base ≡ base
unfolding build_provider_name registered_name
name_default prefix base empty = rw empty

name_injective : (prefix a b : String) → name prefix a ≡ name prefix b → a ≡ b
name_injective prefix a b e = elim (Bool-cases (prefix == "")) [
  | inl empty ↦ sym (name_default prefix a empty) ∙ e ∙ name_default prefix b empty
  | inr given ↦
      append_cancel_left (prefix <> "-") a b
        (sym (name_of_prefix prefix a given) ∙ e ∙ name_of_prefix prefix b given)
]

names_differ : (prefix a b : String) → (a == b) ≡ false → (name prefix a == name prefix b) ≡ false
names_differ prefix a b h = elim (Bool-cases (name prefix a == name prefix b)) [
  | inr differ ↦ differ
  | inl same ↦
      let e = name_injective prefix a b ((eq_iff (name prefix a) (name prefix b)).0 same) in
      absurd (ground (arith, (eq_iff a b).1 e, h))
]

-- Whatever the prefix, `main` registers the four providers under four different names.
pub provider_names-IsNodup : (prefix : String) → IsNodup (provider_names prefix)
unfolding provider_names mem
provider_names-IsNodup prefix = (
  ground (
    arith,
    names_differ prefix "iam-role" "iam-policy" refl,
    names_differ prefix "secret-push" "iam-policy" refl,
    names_differ prefix "rds" "iam-policy" refl,
  ),
  (
    ground (
      arith,
      names_differ prefix "secret-push" "iam-role" refl,
      names_differ prefix "rds" "iam-role" refl,
    ),
    (ground (arith, names_differ prefix "rds" "secret-push" refl), (refl, tt)),
  ),
)

unprefixed : (q base : String) → (q == "") ≡ false → base ≡ joined q base → ⊥
unprefixed q base given e = omega (arith, ap count e, count-joined q base)

-- If two managers register a provider under one name, then their prefixes are the same; each of
-- them may be empty.
pub registered_name_of_prefixes :
    (p q base : String)
    → registered_name base (build_provider_name p base)
      ≡ registered_name base (build_provider_name q base)
    → p ≡ q
registered_name_of_prefixes p q base e = elim (Bool-cases (p == "")) [
  | inl no_p ↦ elim (Bool-cases (q == "")) [
    | inl no_q ↦ (eq_iff p "").0 no_p ∙ sym ((eq_iff q "").0 no_q)
    | inr given ↦
        absurd (
          unprefixed q base given
            (sym (name_default p base no_p) ∙ e ∙ name_of_prefix q base given))
  ]
  | inr given ↦ elim (Bool-cases (q == "")) [
    | inl no_q ↦ absurd (
        unprefixed p base given
          (sym (name_default q base no_q) ∙ sym e ∙ name_of_prefix p base given))
    | inr given' ↦ append_cancel_right p q "-" (
        append_cancel_right (p <> "-") (q <> "-") base
          (sym (name_of_prefix p base given) ∙ e ∙ name_of_prefix q base given'))
  ]
]
