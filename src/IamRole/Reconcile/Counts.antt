-- ===== src/IamRole/Reconcile/Counts.antt =====
-- What a failing reconciliation reports as the number of detached policies.
use componator_aws_providers.Prelude.{
  ◌+◌, String, ◌≡◌, refl, sym, ◌∙◌, ap, Bool, true, not, ◌&&◌, some, List, [], ◌∷◌, ◌++◌, length,
  arith,
}
use componator_aws_providers.Prelude.Int.{pos, ◌+ℤ◌, ◌-ℤ◌}
use componator_aws_providers.Prelude.Texts.{mem, mem_all, IsNodup, set_of, length-set_of, IsPart}
use componator_aws_providers.Go.Flow.{Result, ok, err}
use componator_aws_providers.IamRole.Client.{IamRoleClient}
use componator_aws_providers.IamRole.Attachments.{IsLawful}
use componator_aws_providers.IamRole.Reconcile.{
  PolicyReconciliationResult, Failure, detach_loop, detach_failure, detached_on_failure,
}
use componator_aws_providers.IamRole.Reconcile.Loops.{Tracks, Detached, detach_loop-Detached}

module _ {W : Type 0} (client : IamRoleClient W) (attached : W → String → String → Bool)
    (lawful : IsLawful client attached) (role : String) where
  -- Where a detachment fails, exactly the policies `done` are no longer attached, all of them policies
  -- to detach that were attached, and the reported number of detached policies is the number of
  -- policies to detach and that of `done` together.
  abbrev pub Overcounted : List String → W → Result Failure (List String) × W → Type 0
  Overcounted to_detach w₀ (err f, w) =
      (done rest : List String) × (arn : String) × (r : PolicyReconciliationResult) × (to_detach
        ≡ done ++ (arn ∷ rest))
      × ((a : String) → attached w role a ≡ (not (mem a done) && attached w₀ role a))
      × ((a : String) → mem a done ≡ true → attached w₀ role a ≡ true)
      × (f.result ≡ some r)
      × (r.detached_count ≡ pos (length to_detach + length done))
  Overcounted to_detach w₀ (ok xs, w) = Unit

  mem-append : (a : String) (xs ys : List String) → mem a xs ≡ true → mem a (xs ++ ys) ≡ true
  unfolding mem
  mem-append a [] ys h = cc
  mem-append a (x ∷ xs) ys h = ground (arith, mem-append a xs ys)

  Detached-Overcounted :
      (to_detach current : List String) (w₀ : W) (x : Result Failure (List String) × W)
      → Tracks client attached lawful role (set_of [] current) w₀
      → IsPart to_detach (set_of [] current)
      → IsNodup current
      → Detached client attached lawful role
          (detach_failure to_detach current)
          to_detach
          (set_of [] current)
          x
      → Overcounted to_detach w₀ x
  unfolding detached_on_failure ◌+ℤ◌ ◌-ℤ◌ mem
  Detached-Overcounted to_detach current w₀ (err f, w) t₀ part n
        (done, rest, xs', arn, e, split, eq, t, len, members) =
      (
        done,
        rest,
        arn,
        _,
        split,
        λ a. ground (arith, t.members a, t₀.members a, members a),
        λ a m.
            sym (t₀.members a)
            ∙ mem_all (λ b. mem b (set_of [] current) ≡ true) a to_detach part
                (rw split (mem-append a done (arn ∷ rest) m)),
        ap (λ (g : Failure). g.result) eq,
        ground (arith, len, length-set_of [] current n (λ a m. refl)),
      )
  Detached-Overcounted to_detach current w₀ (ok xs, w) t₀ part n d = tt

  -- When a detachment fails after the policies `done` were detached, and no others, the reported
  -- number of detached policies is the number of policies to detach and that of `done` together, and
  -- not the number of `done`. The policies to detach are attached, and no list repeats a policy.
  pub detach_loop-Overcounted :
      (to_detach current : List String) (w : W)
      → Tracks client attached lawful role (set_of [] current) w
      → IsNodup current
      → IsNodup to_detach
      → IsPart to_detach (set_of [] current)
      → Overcounted to_detach w (
          detach_loop client role
            (detach_failure to_detach current)
            to_detach
            (set_of [] current)
            w)
  detach_loop-Overcounted to_detach current w t n nd part =
      Detached-Overcounted to_detach current w _ t part n (
        detach_loop-Detached client attached lawful role (detach_failure to_detach current)
          to_detach (set_of [] current) w t nd part)
