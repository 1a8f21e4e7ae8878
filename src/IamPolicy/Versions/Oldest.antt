-- ===== src/IamPolicy/Versions/Oldest.antt =====
-- Which version `deleteOldestPolicyVersion` picks.
use componator_aws_providers.Prelude.{
  ◌≤◌, ◌≡◌, refl, ◌⊎◌, inl, inr, true, false, Option, none, some, List, [], ◌∷◌, ltb, All, arith,
  Bool-cases,
}
use componator_aws_providers.IamPolicy.Client.{PolicyVersion}
use componator_aws_providers.IamPolicy.Versions.{oldest_version}

-- `v` stands in the list.
abbrev pub Among : PolicyVersion → List PolicyVersion → Type 0
Among v [] = ⊥
Among v (x ∷ xs) = (v ≡ x) ⊎ Among v xs

-- No version but the default one is older than `v`.
abbrev pub NoneOlder : PolicyVersion → List PolicyVersion → Type 0
NoneOlder v = All λ x. x.is_default_version ≡ false → v.create_date ≤ x.create_date

-- What the search finds in `versions`.
abbrev pub IsOldest : List PolicyVersion → Option PolicyVersion → Type 0
IsOldest versions none = All (λ x. x.is_default_version ≡ true) versions
IsOldest versions (some v) =
    Among v versions × (v.is_default_version ≡ false) × NoneOlder v versions

-- What it finds from a candidate `u`, which is not the default version.
abbrev FoundFrom : PolicyVersion → List PolicyVersion → Option PolicyVersion → Type 0
FoundFrom u versions none = ⊥
FoundFrom u versions (some v) =
    ((v ≡ u) ⊎ Among v versions)
    × (v.is_default_version ≡ false)
    × (v.create_date ≤ u.create_date)
    × NoneOlder v versions

-- A candidate `v` is found past `x` where it is found before `x`, from a candidate as old.
FoundFrom-keep :
    (u x : PolicyVersion) (xs : List PolicyVersion) (r : Option PolicyVersion)
    → (x.is_default_version ≡ false → u.create_date ≤ x.create_date)
    → FoundFrom u xs r
    → FoundFrom u (x ∷ xs) r
FoundFrom-keep u x xs none h f = f
FoundFrom-keep u x xs (some v) h (from, kind, le, older) =
    (ground (arith, from), kind, le, ((λ d. omega (arith, h d)), older))

FoundFrom-replace :
    (u x : PolicyVersion) (xs : List PolicyVersion) (r : Option PolicyVersion)
    → x.create_date ≤ u.create_date
    → FoundFrom x xs r
    → FoundFrom u (x ∷ xs) r
FoundFrom-replace u x xs none h f = f
FoundFrom-replace u x xs (some v) h (from, kind, le, older) =
    (inr from, kind, omega arith, ((λ d. le), older))

found_from :
    (u : PolicyVersion) (versions : List PolicyVersion)
    → u.is_default_version ≡ false
    → FoundFrom u versions (oldest_version (some u) versions)
unfolding oldest_version
found_from u [] k = (inl refl, k, omega arith, tt)
found_from u (x ∷ xs) k = elim (Bool-cases x.is_default_version) [
  | inl d ↦ simp d (FoundFrom-keep u x xs _ (λ n. ground (arith, d, n)) (found_from u xs k))
  | inr n ↦ elim (Bool-cases (ltb x.create_date u.create_date)) [
    | inl lt ↦ simp (n, lt) (FoundFrom-replace u x xs _ (ground arith) (found_from x xs n))
    | inr ge ↦ simp (n, ge) (FoundFrom-keep u x xs _ (λ m. ground arith) (found_from u xs k))
  ]
]

FoundFrom-IsOldest :
    (x : PolicyVersion) (xs : List PolicyVersion) (r : Option PolicyVersion)
    → FoundFrom x xs r
    → IsOldest (x ∷ xs) r
FoundFrom-IsOldest x xs none f = absurd f
FoundFrom-IsOldest x xs (some v) (from, kind, le, older) = (from, kind, ((λ d. le), older))

skip_default :
    (x : PolicyVersion) (xs : List PolicyVersion) (r : Option PolicyVersion)
    → x.is_default_version ≡ true
    → IsOldest xs r
    → IsOldest (x ∷ xs) r
skip_default x xs none d h = (d, h)
skip_default x xs (some v) d (from, kind, older) =
    (inr from, kind, ((λ n. ground (arith, d, n)), older))

-- The search finds no version exactly if all are the default one; a version that it finds is one of
-- the list, is not the default one, and no other that is not the default one is older.
pub oldest_version-IsOldest :
    (versions : List PolicyVersion) → IsOldest versions (oldest_version none versions)
unfolding oldest_version
oldest_version-IsOldest [] = tt
oldest_version-IsOldest (x ∷ xs) = elim (Bool-cases x.is_default_version) [
  | inl d ↦ simp d (skip_default x xs _ d (oldest_version-IsOldest xs))
  | inr n ↦ simp n (FoundFrom-IsOldest x xs _ (found_from x xs n))
]
