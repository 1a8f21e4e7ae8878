-- ===== src/Go/Flow.antt =====
-- Functions that change a world and may return early. `Proc W E A` runs on a world, and either
-- returns early with an `E` or goes on with an `A`; what was done to the world stays done. A Go
-- function with results `(A, error)` is a `Proc W GoError A`.
use componator_aws_providers.Prelude.{◌≡◌, refl, ◌⊎◌, inl, inr}

pub data Result {ℓ κ} (E : Type ℓ) (A : Type κ) : Type (ℓ ⊔ κ) where
  err : E → Result E A
  ok : A → Result E A

abbrev pub Proc : Type 0 → Type 0 → Type 0 → Type 0
Proc W E A = W → Result E A × W

module _ {W E A : Type 0} where
  abbrev pub pure : A → Proc W E A
  pure a w = (ok a, w)

  -- `return` before the end of the function.
  abbrev pub stop : E → Proc W E A
  stop e w = (err e, w)

module _ {W E A B : Type 0} where
  abbrev pub continue : Result E A → (A → Proc W E B) → Proc W E B
  continue (err e) f w = (err e, w)
  continue (ok a) f w = f a w

  infixl 10 ◌>>=◌ ◌>>◌
  abbrev pub ◌>>=◌ : Proc W E A → (A → Proc W E B) → Proc W E B
  ◌>>=◌ m f w = continue (m w).0 f (m w).1

  abbrev pub ◌>>◌ : Proc W E A → Proc W E B → Proc W E B
  m >> k = m >>= λ _. k

module _ {W E F A : Type 0} where
  abbrev pub rescue : Result E A → (E → Proc W F A) → Proc W F A
  rescue (err e) h w = h e w
  rescue (ok a) h w = (ok a, w)

  -- `if err != nil { ... }`: `h` handles the error, by an early return or by going on.
  infixl 11 ◌catch◌
  abbrev pub ◌catch◌ : Proc W E A → (E → Proc W F A) → Proc W F A
  ◌catch◌ m h w = rescue (m w).0 h (m w).1

  -- `if err != nil { return f(err) }`
  infixl 11 ◌or_return◌
  abbrev pub ◌or_return◌ : Proc W E A → (E → F) → Proc W F A
  m or_return f = m catch λ e. stop (f e)

abbrev pub merge : {R : Type 0} → Result R R → R
merge (err r) = r
merge (ok r) = r

-- The body of a function whose early and last results have one type.
abbrev pub body : {W R : Type 0} → Proc W R R → W → R × W
body m w = (merge (m w).0, (m w).1)

-- To split on a computed result and keep the equation.
pub Result-cases {ℓ κ} :
    {E : Type ℓ} {A : Type κ} (r : Result E A) → ((e : E) × (r ≡ err e)) ⊎ ((a : A) × (r ≡ ok a))
Result-cases (err e) = inl (e, refl)
Result-cases (ok a) = inr (a, refl)

-- A run of `m or_return f` and `k` after it that goes on to its end has run both.
pub or_return-ok :
    {W E F A B : Type 0} (m : Proc W E A) (f : E → F) (k : A → Proc W F B) (w : W) {b : B}
    → ((m or_return f >>= k) w).0 ≡ ok b
    → (a : A) × ((m w).0 ≡ ok a) × ((m or_return f >>= k) w ≡ k a (m w).1)
or_return-ok m f k w h = elim (Result-cases (m w).0) [
  | inl (e, g) ↦ cc (rw (g, rescue, continue) at h)
  | inr (a, g) ↦ (a, g, rw (g, rescue, continue))
]
