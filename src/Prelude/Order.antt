-- ===== src/Prelude/Order.antt =====
-- The order of Go's texts, and `slices.Sorted` over the keys of a map. Go compares the bytes of
-- the UTF-8, and UTF-8 keeps the order of the code points, which are compared here.
use componator_aws_providers.Prelude.Tests.{◌==◌, ltb, if◌then◌else◌, Bool-cases}
use componator_aws_providers.Prelude.Texts.{mem, IsNodup}
use Prim.Native.Char.{Char, code}
use Prim.Native.String.{String}
use mathlib.Core.Path.{◌≡◌, refl, ap₂}
use mathlib.Core.Logic.{inl, inr}
use mathlib.Core.Bool.{Bool, true, false, ◌||◌}
use mathlib.Core.List.{List, [], ◌∷◌}
use native.Mathlib.Omega.{arith}
use text.Mathlib.TextEquality.{eq_iff, Char-path}
use text.Mathlib.TextPositions.{eq_refl}

-- `s < t`
unfoldable pub less : String → String → Bool
less String.[] String.[] = false
less String.[] (String.◌∷◌ d t) = true
less (String.◌∷◌ c s) String.[] = false
less (String.◌∷◌ c s) (String.◌∷◌ d t) =
    let rest = less s t in
    if ltb (code c) (code d) then true else if ltb (code d) (code c) then false else rest

pub less_irrefl : (s : String) → less s s ≡ false
unfolding less
less_irrefl String.[] = refl
less_irrefl (String.◌∷◌ c s) = ground (arith, less_irrefl s)

pub less_trans : (s t u : String) → less s t ≡ true → less t u ≡ true → less s u ≡ true
unfolding less
less_trans String.[] String.[] u h k = ground arith
less_trans String.[] (String.◌∷◌ d t) String.[] h k = ground arith
less_trans String.[] (String.◌∷◌ d t) (String.◌∷◌ e u) h k = refl
less_trans (String.◌∷◌ c s) String.[] u h k = ground arith
less_trans (String.◌∷◌ c s) (String.◌∷◌ d t) String.[] h k = ground arith
less_trans (String.◌∷◌ c s) (String.◌∷◌ d t) (String.◌∷◌ e u) h k = ground (arith, less_trans s t u)

cons_eq : (c d : Char) (s t : String) → code c ≡ code d → s ≡ t → String.◌∷◌ c s ≡ String.◌∷◌ d t
cons_eq c d s t p q = ap₂ String.◌∷◌ (Char-path c d p) q

-- Two texts of which neither is the smaller are equal.
pub less_total : (s t : String) → less s t ≡ false → less t s ≡ false → s ≡ t
unfolding less
less_total String.[] String.[] h k = refl
less_total String.[] (String.◌∷◌ d t) h k = ground arith
less_total (String.◌∷◌ c s) String.[] h k = ground arith
less_total (String.◌∷◌ c s) (String.◌∷◌ d t) h k =
    cons_eq c d s t (ground arith) (less_total s t (ground arith) (ground arith))

-- Insertion into an ascending list without repetition.
unfoldable pub place : String → List String → List String
place a [] = a ∷ []
place a (x ∷ xs) = let rest = place a xs in if less a x then a ∷ x ∷ xs else x ∷ rest

-- `slices.Sorted(maps.Keys(m))`, at the keys of `m`.
unfoldable pub sorted : List String → List String
unfolding place
sorted [] = []
sorted (x ∷ xs) = place x (sorted xs)

-- `a` is below every member.
abbrev pub IsBelow : String → List String → Type 0
IsBelow a [] = Unit
IsBelow a (x ∷ xs) = (less a x ≡ true) × IsBelow a xs

-- Strictly ascending, so that no member is repeated.
abbrev pub IsAscending : List String → Type 0
IsAscending [] = Unit
IsAscending (x ∷ xs) = IsBelow x xs × IsAscending xs

mem-place : (a k : String) (xs : List String) → mem a (place k xs) ≡ (k == a || mem a xs)
unfolding mem place
mem-place a k [] = refl
mem-place a k (x ∷ xs) = ground (arith, mem-place a k xs)

pub mem-sorted : (a : String) (xs : List String) → mem a (sorted xs) ≡ mem a xs
unfolding mem sorted
mem-sorted a [] = refl
mem-sorted a (x ∷ xs) = ground (arith, mem-place a x (sorted xs), mem-sorted a xs)

IsBelow-trans : (a b : String) (xs : List String) → less a b ≡ true → IsBelow b xs → IsBelow a xs
IsBelow-trans a b [] h k = tt
IsBelow-trans a b (x ∷ xs) h k = (less_trans a b x h k.0, IsBelow-trans a b xs h k.1)

place-IsBelow :
    (a k : String) (xs : List String) → less a k ≡ true → IsBelow a xs → IsBelow a (place k xs)
unfolding place
place-IsBelow a k [] h b = (h, tt)
place-IsBelow a k (x ∷ xs) h b = ground (arith, place-IsBelow a k xs h b.1)

place-IsAscending :
    (k : String) (xs : List String) → mem k xs ≡ false → IsAscending xs → IsAscending (place k xs)
unfolding place mem
place-IsAscending k [] n h = (tt, tt)
place-IsAscending k (x ∷ xs) n h = elim (Bool-cases (less k x)) [
  | inl lt ↦ rw (lt, place) ((lt, IsBelow-trans k x xs lt h.0), h)
  | inr ge ↦
      rw (ge, place)
        (place-IsBelow x k xs (above ge) h.0, place-IsAscending k xs (ground arith) h.1)
]
  where
    above : less k x ≡ false → less x k ≡ true
    above ge = elim (Bool-cases (less x k)) [
      | inl gt ↦ gt
      | inr le ↦ ground (arith, less_total k x ge le, eq_iff x k)
    ]

pub sorted-IsAscending : (xs : List String) → IsNodup xs → IsAscending (sorted xs)
unfolding sorted
sorted-IsAscending [] h = tt
sorted-IsAscending (x ∷ xs) h =
    place-IsAscending x (sorted xs) (rw mem-sorted h.0) (sorted-IsAscending xs h.1)

-- Nothing that is below a list is a member of it.
IsBelow-not_mem : (a : String) (xs : List String) → IsBelow a xs → mem a xs ≡ false
unfolding mem
IsBelow-not_mem a [] h = refl
IsBelow-not_mem a (x ∷ xs) h = ground (arith, IsBelow-not_mem a xs h.1, eq_iff x a, less_irrefl a)

pub IsAscending-IsNodup : (xs : List String) → IsAscending xs → IsNodup xs
IsAscending-IsNodup [] h = tt
IsAscending-IsNodup (x ∷ xs) h = (IsBelow-not_mem x xs h.0, IsAscending-IsNodup xs h.1)

IsBelow-head :
    (a x : String) (xs : List String) → less a x ≡ true → IsBelow x xs → mem a (x ∷ xs) ≡ false
IsBelow-head a x xs lt h = IsBelow-not_mem a (x ∷ xs) (lt, IsBelow-trans a x xs lt h)

heads_eq :
    (x y : String) (xs ys : List String)
    → IsBelow x xs
    → IsBelow y ys
    → ((a : String) → mem a (x ∷ xs) ≡ mem a (y ∷ ys))
    → x ≡ y
unfolding mem
heads_eq x y xs ys hx hy e =
    less_total x y (ground (arith, e x, IsBelow-head x y ys, eq_refl x))
      (ground (arith, e y, IsBelow-head y x xs, eq_refl y))

tails_agree :
    (x y : String) (xs ys : List String)
    → x ≡ y
    → IsBelow x xs
    → IsBelow y ys
    → ((a : String) → mem a (x ∷ xs) ≡ mem a (y ∷ ys))
    → (a : String) → mem a xs ≡ mem a ys
unfolding mem
tails_agree x y xs ys p hx hy e a =
    ground (arith, e a, eq_iff x a, eq_iff y a, IsBelow-not_mem x xs hx, IsBelow-not_mem y ys hy)

-- Two ascending lists with the same members are the same list.
pub IsAscending-eq :
    (xs ys : List String)
    → IsAscending xs
    → IsAscending ys
    → ((a : String) → mem a xs ≡ mem a ys)
    → xs ≡ ys
unfolding mem
IsAscending-eq [] [] hx hy e = refl
IsAscending-eq [] (y ∷ ys) hx hy e = ground (arith, e y, eq_refl y)
IsAscending-eq (x ∷ xs) [] hx hy e = ground (arith, e x, eq_refl x)
IsAscending-eq (x ∷ xs) (y ∷ ys) hx hy e =
    let p = heads_eq x y xs ys hx.0 hy.0 e in
    ap₂ ◌∷◌ p (IsAscending-eq xs ys hx.1 hy.1 (tails_agree x y xs ys p hx.0 hy.0 e))
