-- ===== src/IamRole/Reconcile/Changes.antt =====
-- The outcome of the changes that the reconciliation makes: detaching, then attaching.
use componator_aws_providers.Prelude.{
  String, ◌≡◌, refl, ◌∙◌, Bool, some, List, [], length, not, ◌&&◌, ◌||◌, arith,
}
use componator_aws_providers.Prelude.Int.{pos}
use componator_aws_providers.Prelude.Texts.{
  mem, IsNodup, delete_func, set_of, mem-delete_func, mem-set_of, delete_func-IsNodup,
  set_of-IsNodup, IsPart,
}
use componator_aws_providers.Prelude.Order.{sorted, mem-sorted, IsAscending, sorted-IsAscending}
use componator_aws_providers.Go.Flow.{Result, ok, err, continue, pure, ◌>>=◌}
use componator_aws_providers.IamRole.Client.{IamRoleClient}
use componator_aws_providers.IamRole.Attachments.{IsLawful}
use componator_aws_providers.IamRole.Reconcile.{
  PolicyReconciliationResult, Failure, result_of, missing, attach_loop, detach_failure,
  attach_failure, apply_changes,
}
use componator_aws_providers.IamRole.Reconcile.Loops.{
  Tracks, Detached, detach_loop-Detached, Attached, attach_loop-Attached,
}

pub mem-missing :
    (a : String) (wanted present : List String)
    → mem a (missing wanted present) ≡ (not (mem a present) && mem a wanted)
unfolding missing mem
mem-missing a wanted present =
    mem-sorted a (delete_func (λ k. mem k present) (set_of [] wanted))
    ∙ ground
        (arith, mem-delete_func (λ k. mem k present) a (set_of [] wanted), mem-set_of a [] wanted)

pub missing-IsAscending : (wanted present : List String) → IsAscending (missing wanted present)
unfolding missing
missing-IsAscending wanted present =
    sorted-IsAscending _
      (delete_func-IsNodup (λ k. mem k present) (set_of [] wanted) (set_of-IsNodup [] wanted tt))

module _ {W : Type 0} (client : IamRoleClient W) (attached : W → String → String → Bool)
    (lawful : IsLawful client attached) (role : String) where
  -- The reported policies are those attached in `w`, ascending and each once.
  pub record Reports (r : PolicyReconciliationResult) (w : W) : Type 0 where
    pub exact : (a : String) → mem a r.attached_policies ≡ attached w role a
    pub ascending : IsAscending r.attached_policies

  pub Tracks-Reports :
      (xs : List String) (w : W) (r : PolicyReconciliationResult)
      → r.attached_policies ≡ sorted xs
      → Tracks client attached lawful role xs w
      → Reports r w
  Tracks-Reports xs w r eq t = record {
    exact = λ a. rw eq (mem-sorted a xs ∙ t.members a);
    ascending = rw eq (sorted-IsAscending xs t.nodup);
  }

  -- How the changes end.
  abbrev pub Changed :
      List String
      → List String
      → List String
      → Result Failure PolicyReconciliationResult × W
      → Type 0
  Changed to_attach to_detach actually (err f, w) =
      (r : PolicyReconciliationResult) × (f.result ≡ some r) × Reports r w
  Changed to_attach to_detach actually (ok r, w) =
      Reports r w
      × ((a : String)
          → mem a r.attached_policies
            ≡ (mem a to_attach || (not (mem a to_detach) && mem a actually)))

  attach_part :
      (to_attach to_detach actually remaining : List String) (x : Result Failure (List String) × W)
      → ((a : String) → mem a remaining ≡ (not (mem a to_detach) && mem a actually))
      → Attached client attached lawful role (attach_failure to_detach) to_attach remaining 0 x
      → Changed to_attach to_detach actually (
          continue x.0
            (λ final. pure (result_of final (pos (length to_attach)) (pos (length to_detach))))
            x.1)
  attach_part to_attach to_detach actually remaining (err f, w) m
        (done, rest, xs', arn, e, split, eq, t) =
      rw eq (_, refl, Tracks-Reports xs' w _ refl t)
  attach_part to_attach to_detach actually remaining (ok final, w) m (t, members) =
      (Tracks-Reports final w _ refl t, λ a. mem-sorted a final ∙ ground (arith, members a, m a))

  detach_part :
      (to_attach to_detach current : List String) (x : Result Failure (List String) × W)
      → Detached client attached lawful role
          (detach_failure to_detach current)
          to_detach
          (set_of [] current)
          x
      → Changed to_attach to_detach (set_of [] current) (
          continue x.0
            (λ remaining.
              attach_loop client role (attach_failure to_detach) to_attach remaining 0 >>= λ final.
              pure (result_of final (pos (length to_attach)) (pos (length to_detach))))
            x.1)
  detach_part to_attach to_detach current (err f, w)
        (done, rest, xs', arn, e, split, eq, t, len, m) =
      rw eq (_, refl, Tracks-Reports xs' w _ refl t)
  detach_part to_attach to_detach current (ok remaining, w) (t, members) =
      attach_part to_attach to_detach (set_of [] current) remaining
        (attach_loop client role (attach_failure to_detach) to_attach remaining 0 w) members
        (attach_loop-Attached client attached lawful role (attach_failure to_detach) to_attach
          remaining 0 w t)

  pub apply_changes-Changed :
      (to_attach to_detach current : List String) (w : W)
      → Tracks client attached lawful role (set_of [] current) w
      → IsNodup to_detach
      → IsPart to_detach (set_of [] current)
      → Changed to_attach to_detach
          (set_of [] current)
          (apply_changes client role to_attach to_detach current w)
  unfolding apply_changes
  apply_changes-Changed to_attach to_detach current w t n part =
      detach_part to_attach to_detach current _ (
        detach_loop-Detached client attached lawful role (detach_failure to_detach current)
          to_detach (set_of [] current) w t n part)
