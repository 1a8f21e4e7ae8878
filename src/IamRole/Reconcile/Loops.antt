-- ===== src/IamRole/Reconcile/Loops.antt =====
-- The attachments of the role during the two loops of the reconciliation.
use componator_aws_providers.Prelude.{
  ℕ, suc, ◌+◌, String, ◌≡◌, refl, sym, ap, ◌∙◌, inl, inr, Bool, true, List, [], ◌∷◌, ◌++◌, length,
  not, ◌&&◌, ◌||◌, arith,
}
use componator_aws_providers.Prelude.Texts.{
  mem, IsNodup, insert, erase, mem-insert, mem-erase, insert-IsNodup, erase-IsNodup, length-erase,
  IsPart, erase-IsPart,
}
use componator_aws_providers.Go.{GoError, wrapf}
use componator_aws_providers.Go.Flow.{Result, ok, err, rescue, continue, Result-cases}
use componator_aws_providers.IamRole.Client.{IamRoleClient}
use componator_aws_providers.IamRole.Attachments.{IsLawful}
use componator_aws_providers.IamRole.Calls.{attach_policy, detach_policy}
use componator_aws_providers.IamRole.Reconcile.{Failure, detach_loop, attach_loop}

module _ {W : Type 0} (client : IamRoleClient W) (attached : W → String → String → Bool)
    (lawful : IsLawful client attached) (role : String) where
  -- `xs` holds the policies attached in `w`, each once.
  pub record Tracks (xs : List String) (w : W) : Type 0 where
    pub members : (a : String) → mem a xs ≡ attached w role a
    pub nodup : IsNodup xs

  pub Tracks-detach :
      (p : String) (xs : List String) (w : W)
      → (client.detach_role_policy role p w).0 ≡ ok tt
      → Tracks xs w
      → Tracks (erase p xs) (client.detach_role_policy role p w).1
  Tracks-detach p xs w h t = record {
    members = λ a. ground (arith, mem-erase a p xs, t.members a, lawful.detach_done role p w h a);
    nodup = erase-IsNodup p xs t.nodup;
  }

  Tracks-detach_failed :
      (p : String) (xs : List String) (w : W) (e : GoError)
      → (client.detach_role_policy role p w).0 ≡ err e
      → Tracks xs w
      → Tracks xs (client.detach_role_policy role p w).1
  Tracks-detach_failed p xs w e h t = record {
    members = λ a. t.members a ∙ sym (lawful.detach_failed role p w e h a);
    nodup = t.nodup;
  }

  Tracks-attach :
      (p : String) (xs : List String) (w : W)
      → (client.attach_role_policy role p w).0 ≡ ok tt
      → Tracks xs w
      → Tracks (insert p xs) (client.attach_role_policy role p w).1
  Tracks-attach p xs w h t = record {
    members = λ a. ground (arith, mem-insert a p xs, t.members a, lawful.attach_done role p w h a);
    nodup = insert-IsNodup p xs t.nodup;
  }

  Tracks-attach_failed :
      (p : String) (xs : List String) (w : W) (e : GoError)
      → (client.attach_role_policy role p w).0 ≡ err e
      → Tracks xs w
      → Tracks xs (client.attach_role_policy role p w).1
  Tracks-attach_failed p xs w e h t = record {
    members = λ a. t.members a ∙ sym (lawful.attach_failed role p w e h a);
    nodup = t.nodup;
  }

  abbrev detach_format : String
  detach_format = "failed to detach policy: %w"

  abbrev attach_format : String
  attach_format = "failed to attach policy: %w"

  -- How the detaching loop ends: after the policies `done` were detached a call fails, and the
  -- others stay attached; or all of `arns` are gone.
  abbrev pub Detached :
      (List String → String → GoError → Failure)
      → List String
      → List String
      → Result Failure (List String) × W
      → Type 0
  Detached failed arns xs (err f, w) =
      (done rest xs' : List String) × (arn : String) × (e : GoError) × (arns ≡ done ++ (arn ∷ rest))
      × (f ≡ failed xs' arn e)
      × Tracks xs' w
      × (length xs' + length done ≡ length xs)
      × ((a : String) → mem a xs' ≡ (not (mem a done) && mem a xs))
  Detached failed arns xs (ok xs', w) =
      Tracks xs' w × ((a : String) → mem a xs' ≡ (not (mem a arns) && mem a xs))

  Detached-cons :
      (failed : List String → String → GoError → Failure) (p : String) (rest xs : List String)
      (r : Result Failure (List String) × W)
      → mem p xs ≡ true
      → IsNodup xs
      → Detached failed rest (erase p xs) r
      → Detached failed (p ∷ rest) xs r
  unfolding mem
  Detached-cons failed p rest xs (err f, w) m n
        (done, after, xs', arn, e, split, eq, t, len, members) =
      (
        p ∷ done,
        after,
        xs',
        arn,
        e,
        ap (◌∷◌ p) split,
        eq,
        t,
        omega (arith, length-erase p xs m n),
        λ a. ground (arith, members a, mem-erase a p xs),
      )
  Detached-cons failed p rest xs (ok xs', w) m n (t, members) =
      (t, λ a. ground (arith, members a, mem-erase a p xs))

  pub detach_loop-Detached :
      (failed : List String → String → GoError → Failure) (arns xs : List String) (w : W)
      → Tracks xs w
      → IsNodup arns
      → IsPart arns xs
      → Detached failed arns xs (detach_loop client role failed arns xs w)
  unfolding detach_loop detach_policy mem
  detach_loop-Detached failed [] xs w t n part = (t, λ a. ground arith)
  detach_loop-Detached failed (p ∷ rest) xs w t n part =
      elim (Result-cases (client.detach_role_policy role p w).0) [
        | inl (e, h) ↦
            rw (h, rescue, continue)
              (
                [],
                rest,
                xs,
                p,
                wrapf detach_format [] e,
                refl,
                refl,
                Tracks-detach_failed p xs w e h t,
                omega arith,
                λ a. refl,
              )
        | inr (u, h) ↦
            rw (h, rescue, continue)
              (Detached-cons failed p rest xs _ part.0 t.nodup (
                detach_loop-Detached failed rest (erase p xs) (client.detach_role_policy role p w).1
                  (Tracks-detach p xs w h t) n.1 (erase-IsPart p rest xs n.0 part.1)))
      ]

  -- How the attaching loop ends, where it begins with `n` policies attached before.
  abbrev pub Attached :
      (List String → ℕ → String → GoError → Failure)
      → List String
      → List String
      → ℕ
      → Result Failure (List String) × W
      → Type 0
  Attached failed arns xs n (err f, w) =
      (done rest xs' : List String) × (arn : String) × (e : GoError) × (arns ≡ done ++ (arn ∷ rest))
      × (f ≡ failed xs' (n + length done) arn e)
      × Tracks xs' w
  Attached failed arns xs n (ok xs', w) =
      Tracks xs' w × ((a : String) → mem a xs' ≡ (mem a arns || mem a xs))

  Attached-cons :
      (failed : List String → ℕ → String → GoError → Failure) (p : String) (rest xs : List String)
      (n : ℕ) (r : Result Failure (List String) × W)
      → Attached failed rest (insert p xs) (suc n) r
      → Attached failed (p ∷ rest) xs n r
  unfolding mem
  Attached-cons failed p rest xs n (err f, w) (done, after, xs', arn, e, split, eq, t) = (
    p ∷ done,
    after,
    xs',
    arn,
    e,
    ap (◌∷◌ p) split,
    eq ∙ ap (λ k. failed xs' k arn e) (omega arith),
    t,
  )
  Attached-cons failed p rest xs n (ok xs', w) (t, members) =
      (t, λ a. ground (arith, members a, mem-insert a p xs))

  pub attach_loop-Attached :
      (failed : List String → ℕ → String → GoError → Failure) (arns xs : List String) (n : ℕ)
      (w : W)
      → Tracks xs w
      → Attached failed arns xs n (attach_loop client role failed arns xs n w)
  unfolding attach_loop attach_policy mem
  attach_loop-Attached failed [] xs n w t = (t, λ a. ground arith)
  attach_loop-Attached failed (p ∷ rest) xs n w t =
      elim (Result-cases (client.attach_role_policy role p w).0) [
        | inl (e, h) ↦
            rw (h, rescue, continue)
              (
                [],
                rest,
                xs,
                p,
                wrapf attach_format [] e,
                refl,
                ap (λ k. failed xs k p (wrapf attach_format [] e)) (omega arith),
                Tracks-attach_failed p xs w e h t,
              )
        | inr (u, h) ↦
            rw (h, rescue, continue)
              (Attached-cons failed p rest xs n _ (
                attach_loop-Attached failed rest (insert p xs) (suc n)
                  (client.attach_role_policy role p w).1 (Tracks-attach p xs w h t)))
      ]
