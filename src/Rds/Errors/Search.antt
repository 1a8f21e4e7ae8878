-- ===== src/Rds/Errors/Search.antt =====
-- When an error says that the instance is being deleted.
use componator_aws_providers.Prelude.{
  ℕ, ◌≡◌, refl, ap, ◌↔◌, inl, inr, Bool, true, false, some, List, [], ◌∷◌, ◌++◌, map, ◌&&◌, arith,
  Bool-cases, Option-cases,
}
use componator_aws_providers.Go.{Exception, SdkError, GoError, as_sdk}
use componator_aws_providers.Aws.{is_exception}
use componator_aws_providers.Rds.Errors.{
  codes, to_lower, is_prefix, contains, being_deleted, is_instance_already_being_deleted_error,
}

is_prefix_split : (p s : List ℕ) → is_prefix p s ≡ true → (post : List ℕ) × (s ≡ p ++ post)
unfolding is_prefix
is_prefix_split [] s h = (s, refl)
is_prefix_split (c ∷ p) [] h = cc
is_prefix_split (c ∷ p) (d ∷ s) h =
    let (post, e) = is_prefix_split p s (ground arith) in (post, ground (arith, e))

is_prefix-append : (p post : List ℕ) → is_prefix p (p ++ post) ≡ true
unfolding is_prefix
is_prefix-append [] post = refl
is_prefix-append (c ∷ p) post = ground (arith, is_prefix-append p post)

contains_split :
    (s p : List ℕ) → contains s p ≡ true → (pre post : List ℕ) × (s ≡ pre ++ (p ++ post))
unfolding contains
contains_split [] p h = let (post, e) = is_prefix_split p [] h in ([], post, e)
contains_split (c ∷ s) p h = elim (Bool-cases (is_prefix p (c ∷ s))) [
  | inl here ↦ let (post, e) = is_prefix_split p (c ∷ s) here in ([], post, e)
  | inr later ↦
      let (pre, post, e) = contains_split s p (ground arith) in (c ∷ pre, post, ap (◌∷◌ c) e)
]

contains-append : (pre p post : List ℕ) → contains (pre ++ (p ++ post)) p ≡ true
unfolding contains
contains-append [] p post = start (p ++ post) p (is_prefix-append p post)
  where
    start : (s q : List ℕ) → is_prefix q s ≡ true → contains s q ≡ true
    start [] q h = h
    start (c ∷ s) q h = rw h
contains-append (c ∷ pre) p post = ground (arith, contains-append pre p post)

-- The SDK error says that the instance is being deleted: it is an invalid instance state, and its
-- message has that text, in capitals or not, somewhere in it.
abbrev pub SaysBeingDeleted : SdkError → Type 0
SaysBeingDeleted x =
    (x.exception ≡ Exception.invalid_db_instance_state)
    × ((pre post : List ℕ) × (map to_lower (codes x.message)
          ≡ pre ++ (codes "already being deleted" ++ post)))

is_exception-invalid_state :
    (x : Exception)
    → is_exception Exception.invalid_db_instance_state x ≡ true
    → x ≡ Exception.invalid_db_instance_state
is_exception-invalid_state Exception.no_such_entity h = cc
is_exception-invalid_state Exception.resource_not_found h = cc
is_exception-invalid_state Exception.db_instance_not_found h = cc
is_exception-invalid_state Exception.invalid_db_instance_state h = refl
is_exception-invalid_state Exception.other h = cc

and_true : (a b : Bool) → (a && b) ≡ true → (a ≡ true) × (b ≡ true)
and_true true b h = (refl, h)
and_true false b h = cc

being_deleted_found : (x : SdkError) → being_deleted (some x) ≡ true → SaysBeingDeleted x
being_deleted_found x h =
    let (state, found) = and_true _ _ h in
    (is_exception-invalid_state x.exception state, contains_split _ _ found)

being_deleted_of : (x : SdkError) → SaysBeingDeleted x → being_deleted (some x) ≡ true
being_deleted_of x (state, (pre, post, e)) =
    simp (state, e, is_exception, contains-append pre (codes "already being deleted") post)

-- An error counts as "already being deleted" exactly if an SDK error is found in its chain that is
-- an invalid instance state, and whose message has that text, in capitals or not, somewhere in it.
pub already_being_deleted_iff :
    (e : GoError)
    → (is_instance_already_being_deleted_error (some e) ≡ true)
      ↔ ((x : SdkError) × (as_sdk e ≡ some x) × SaysBeingDeleted x)
unfolding is_instance_already_being_deleted_error
already_being_deleted_iff error = (there, back)
  where
    there :
        being_deleted (as_sdk error) ≡ true
        → ((x : SdkError) × (as_sdk error ≡ some x) × SaysBeingDeleted x)
    there h = elim (Option-cases (as_sdk error)) [
      | inl nothing ↦ absurd (ground (arith, rw nothing at h))
      | inr (x, e) ↦ (x, e, being_deleted_found x (rw e at h))
    ]

    back :
        ((x : SdkError) × (as_sdk error ≡ some x) × SaysBeingDeleted x)
        → being_deleted (as_sdk error) ≡ true
    back (x, found, says) = rw found (being_deleted_of x says)
