-- ===== src/Prelude/Texts.antt =====
-- Lists of texts read as sets: membership, and Go's `map[string]bool`
-- as the list of its keys. The sorting of keys is in Order.antt.
use componator_aws_providers.Prelude.Tests.{◌==◌, if◌then◌else◌, Bool-cases}
use componator_aws_providers.Prelude.Lists.{length, All}
use Prim.Native.Nat.{◌+◌}
use Prim.Native.String.{String}
use mathlib.Core.Path.{◌≡◌, refl, ◌∙◌, subst}
use mathlib.Core.Logic.{inl, inr}
use mathlib.Core.Bool.{Bool, true, false, not, ◌&&◌, ◌||◌}
use mathlib.Core.List.{List, [], ◌∷◌}
use native.Mathlib.Omega.{arith}
use text.Mathlib.TextEquality.{eq_iff}
use text.Mathlib.TextPositions.{eq_refl}

-- `slices.Contains`, and the lookup `m[k]` in a `map[string]bool` whose values are all true.
unfoldable pub mem : String → List String → Bool
mem a [] = false
mem a (x ∷ xs) = x == a || mem a xs

-- No member occurs twice.
abbrev pub IsNodup : List String → Type 0
IsNodup [] = Unit
IsNodup (x ∷ xs) = (mem x xs ≡ false) × IsNodup xs

-- `m[k] = true`
unfoldable pub insert : String → List String → List String
insert a xs = if mem a xs then xs else a ∷ xs

-- `delete(m, k)`
unfoldable pub erase : String → List String → List String
erase a [] = []
erase a (x ∷ xs) = let rest = erase a xs in if x == a then rest else x ∷ rest

-- `maps.DeleteFunc(m, func(k, _) bool { return p(k) })`
unfoldable pub delete_func : (String → Bool) → List String → List String
delete_func p [] = []
delete_func p (x ∷ xs) = let rest = delete_func p xs in if p x then rest else x ∷ rest

-- The keys of the map that a loop `for _, k := range xs { m[k] = true }` fills.
unfoldable pub set_of : List String → List String → List String
set_of acc [] = acc
set_of acc (x ∷ xs) = set_of (insert x acc) xs

pub mem-insert : (a k : String) (xs : List String) → mem a (insert k xs) ≡ (k == a || mem a xs)
unfolding mem insert
mem-insert a k xs = ground (arith, eq_iff k a)

pub mem-erase : (a k : String) (xs : List String) → mem a (erase k xs) ≡ (not (k == a) && mem a xs)
unfolding mem erase
mem-erase a k [] = ground arith
mem-erase a k (x ∷ xs) = ground (arith, mem-erase a k xs, eq_iff x k, eq_iff k a, eq_iff x a)

pub mem-delete_func :
    (p : String → Bool) (a : String) (xs : List String)
    → mem a (delete_func p xs) ≡ (not (p a) && mem a xs)
unfolding mem delete_func
mem-delete_func p a [] = ground arith
mem-delete_func p a (x ∷ xs) = ground (arith, mem-delete_func p a xs, eq_iff x a)

pub mem-set_of :
    (a : String) (acc xs : List String) → mem a (set_of acc xs) ≡ (mem a acc || mem a xs)
unfolding set_of mem
mem-set_of a acc [] = ground arith
mem-set_of a acc (x ∷ xs) = ground (arith, mem-set_of a (insert x acc) xs, mem-insert a x acc)

pub insert-IsNodup : (k : String) (xs : List String) → IsNodup xs → IsNodup (insert k xs)
unfolding insert
insert-IsNodup k xs h = ground arith

pub erase-IsNodup : (k : String) (xs : List String) → IsNodup xs → IsNodup (erase k xs)
unfolding erase
erase-IsNodup k [] h = tt
erase-IsNodup k (x ∷ xs) h = ground (arith, erase-IsNodup k xs h.1, mem-erase x k xs)

pub delete_func-IsNodup :
    (p : String → Bool) (xs : List String) → IsNodup xs → IsNodup (delete_func p xs)
unfolding delete_func
delete_func-IsNodup p [] h = tt
delete_func-IsNodup p (x ∷ xs) h =
    ground (arith, delete_func-IsNodup p xs h.1, mem-delete_func p x xs)

pub set_of-IsNodup : (acc xs : List String) → IsNodup acc → IsNodup (set_of acc xs)
unfolding set_of
set_of-IsNodup acc [] h = h
set_of-IsNodup acc (x ∷ xs) h = set_of-IsNodup (insert x acc) xs (insert-IsNodup x acc h)

pub length-erase_not_mem :
    (k : String) (xs : List String) → mem k xs ≡ false → length (erase k xs) ≡ length xs
unfolding mem erase
length-erase_not_mem k [] h = refl
length-erase_not_mem k (x ∷ xs) h = ground (arith, length-erase_not_mem k xs)

pub length-erase :
    (k : String) (xs : List String)
    → mem k xs ≡ true
    → IsNodup xs
    → length (erase k xs) + 1 ≡ length xs
unfolding mem erase
length-erase k [] h n = cc
length-erase k (x ∷ xs) h n =
    ground (arith, length-erase k xs, length-erase_not_mem k xs, eq_iff x k)

-- `xs` is part of `ys`.
abbrev pub IsPart : List String → List String → Type 0
IsPart xs ys = All (λ a. mem a ys ≡ true) xs

pub erase-IsPart :
    (k : String) (xs ys : List String) → mem k xs ≡ false → IsPart xs ys → IsPart xs (erase k ys)
unfolding mem
erase-IsPart k [] ys n h = tt
erase-IsPart k (x ∷ xs) ys n h = (
  ground (arith, mem-erase x k ys, eq_iff x k, eq_iff k x),
  erase-IsPart k xs ys (ground arith) h.1,
)

pub IsPart-of_mem :
    (xs ys : List String) → ((a : String) → mem a xs ≡ true → mem a ys ≡ true) → IsPart xs ys
unfolding mem
IsPart-of_mem [] ys h = tt
IsPart-of_mem (x ∷ xs) ys h =
    (h x (ground (arith, eq_refl x)), IsPart-of_mem xs ys (λ a m. h a (ground arith)))

pub length-set_of :
    (acc xs : List String)
    → IsNodup xs
    → ((a : String) → mem a xs ≡ true → mem a acc ≡ false)
    → length (set_of acc xs) ≡ length acc + length xs
unfolding set_of insert mem
length-set_of acc [] n h = omega arith
length-set_of acc (x ∷ xs) n h =
    rw (h x (ground (arith, eq_refl x)))
      (length-set_of (x ∷ acc) xs n.1 (λ a m. ground (arith, h a, eq_iff x a, n.0)) ∙ omega arith)

-- What holds of each text of the list holds of a member.
pub mem_all {ℓ} :
    (P : String → Type ℓ) (a : String) (xs : List String) → All P xs → mem a xs ≡ true → P a
unfolding mem
mem_all P a [] h m = cc
mem_all P a (x ∷ xs) h m = elim (Bool-cases (x == a)) [
  | inl e ↦ subst P ((eq_iff x a).0 e) h.0
  | inr n ↦ mem_all P a xs h.1 (ground arith)
]
