-- ===== src/Go/Along.antt =====
-- Runs along a relation between worlds: whatever the result, the world before and the world after a
-- run are related. The relation is reflexive and transitive, so a function follows it as soon as all
-- of its calls do.
use componator_aws_providers.Prelude.{Bool, true, false, if◌then◌else◌}
use componator_aws_providers.Go.Flow.{
  Result, ok, err, Proc, pure, stop, continue, rescue, ◌>>=◌, ◌catch◌, ◌or_return◌,
}

pub record Preorder {W : Type 0} (R : W → W → Type 0) : Type 0 where
  pub same : (w : W) → R w w
  pub trans : (u v w : W) → R u v → R v w → R u w

pub record Along {W E A : Type 0} (R : W → W → Type 0) (m : Proc W E A) : Type 0 where
  pub run : (w : W) → R w (m w).1

module _ {W : Type 0} {R : W → W → Type 0} where
  pub if-Along :
      {E A : Type 0} (b : Bool) (m n : Proc W E A)
      → Along R m
      → Along R n
      → Along R (if b then m else n)
  if-Along true m n first second = first
  if-Along false m n first second = second

module _ {W : Type 0} {R : W → W → Type 0} (order : Preorder R) where
  pub pure-Along : {E A : Type 0} (a : A) → Along R (pure {W = W} {E = E} a)
  pure-Along a = record { run = order.same }

  pub stop-Along : {E A : Type 0} (e : E) → Along R (stop {W = W} {A = A} e)
  stop-Along e = record { run = order.same }

  continued :
      {E A B : Type 0} (r : Result E A) (k : A → Proc W E B) (w : W)
      → ((a : A) → Along R (k a))
      → R w (continue r k w).1
  continued (err e) k w rest = order.same w
  continued (ok a) k w rest = (rest a).run w

  pub >>=-Along :
      {E A B : Type 0} (m : Proc W E A) (k : A → Proc W E B)
      → Along R m
      → ((a : A) → Along R (k a))
      → Along R (m >>= k)
  >>=-Along m k first rest = record {
    run = λ w. order.trans w (m w).1 _ (first.run w) (continued (m w).0 k (m w).1 rest);
  }

  rescued :
      {E F A : Type 0} (r : Result E A) (h : E → Proc W F A) (w : W)
      → ((e : E) → Along R (h e))
      → R w (rescue r h w).1
  rescued (err e) h w rest = (rest e).run w
  rescued (ok a) h w rest = order.same w

  pub catch-Along :
      {E F A : Type 0} (m : Proc W E A) (h : E → Proc W F A)
      → Along R m
      → ((e : E) → Along R (h e))
      → Along R (m catch h)
  catch-Along m h first rest = record {
    run = λ w. order.trans w (m w).1 _ (first.run w) (rescued (m w).0 h (m w).1 rest);
  }

  pub or_return-Along :
      {E F A : Type 0} (m : Proc W E A) (f : E → F) → Along R m → Along R (m or_return f)
  or_return-Along m f first = catch-Along m (λ e. stop (f e)) first (λ e. stop-Along (f e))
