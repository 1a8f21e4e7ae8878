-- ===== src/IamRole/Moves.antt =====
-- The abstract role: the set of the policies attached to it, which is moved towards a desired set one
-- policy at a time. A desired policy is never detached, and no other is ever attached.
use componator_aws_providers.Prelude.{
  String, ◌≡◌, ◌∙◌, ◌⊎◌, inl, Bool, true, false, not, ◌&&◌, ◌||◌, ◌==◌, arith, eq_iff,
}

abbrev pub Policies : Type 0
Policies = String → Bool

-- The same policies.
infix 4 ◌≈◌
abbrev pub ◌≈◌ : Policies → Policies → Type 0
A ≈ B = (a : String) → A a ≡ B a

abbrev pub with_policy : String → Policies → Policies
with_policy p A a = p == a || A a

abbrev pub without_policy : String → Policies → Policies
without_policy p A a = not (p == a) && A a

module _ (desired : Policies) where
  -- One change of the attached policies `A` to `B`.
  pub data Move (A B : Policies) : Type 0 where
    attach : (p : String) → desired p ≡ true → B ≈ with_policy p A → Move A B
    detach : (p : String) → desired p ≡ false → B ≈ without_policy p A → Move A B

  pub data Moves (A : Policies) : Policies → Type 0 where
    still : {B : Policies} → B ≈ A → Moves A B
    next : {B C : Policies} → Moves A B → Move B C → Moves A C

  Move-same : {A B C : Policies} → Move A B → C ≈ B → Move A C
  Move-same (attach p d f) e = attach p d (λ a. e a ∙ f a)
  Move-same (detach p d f) e = detach p d (λ a. e a ∙ f a)

  Moves-same : {A B C : Policies} → Moves A B → C ≈ B → Moves A C
  Moves-same (still f) e = still (λ a. e a ∙ f a)
  Moves-same (next r m) e = next r (Move-same m e)

  pub Moves-trans : {A B C : Policies} → Moves A B → Moves B C → Moves A C
  Moves-trans r (still e) = Moves-same r e
  Moves-trans r (next s m) = next (Moves-trans r s) m

  -- Each policy stays as it is, or becomes as desired.
  abbrev pub Between : Policies → Policies → Type 0
  Between A B = (a : String) → (B a ≡ A a) ⊎ (B a ≡ desired a)

  Move-Between : {A B C : Policies} → Between A B → Move B C → Between A C
  Move-Between h (attach p d e) a = ground (arith, h a, e a, d, eq_iff p a)
  Move-Between h (detach p d e) a = ground (arith, h a, e a, d, eq_iff p a)

  pub Moves-Between : {A B : Policies} → Moves A B → Between A B
  Moves-Between (still e) a = inl (e a)
  Moves-Between (next r m) a = Move-Between (Moves-Between r) m a
