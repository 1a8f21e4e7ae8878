-- ===== src/IamRole/Reconcile/Exact.antt =====
-- The outcome of `reconcilePolicyAttachments`: what is attached after it, and what it reports.
use componator_aws_providers.Prelude.{
  String, ◌≡◌, refl, sym, ◌∙◌, inl, inr, Bool, true, false, Option, none, some, List, [], ◌∷◌, map,
  is_empty, ◌&&◌, arith, eq_refl, Bool-cases,
}
use componator_aws_providers.Prelude.Int.{pos}
use componator_aws_providers.Prelude.Texts.{
  mem, set_of, mem-set_of, set_of-IsNodup, IsPart, IsPart-of_mem,
}
use componator_aws_providers.Prelude.Order.{
  sorted, mem-sorted, sorted-IsAscending, IsAscending-IsNodup, IsAscending-eq,
}
use componator_aws_providers.Go.Flow.{Result, ok, err, rescue, continue, Result-cases}
use componator_aws_providers.Aws.{to_string}
use componator_aws_providers.IamRole.Client.{IamRoleClient}
use componator_aws_providers.IamRole.Attachments.{IsLawful}
use componator_aws_providers.IamRole.Calls.{list_attached_policies}
use componator_aws_providers.IamRole.Reconcile.{
  PolicyReconciliationResult, Failure, result_of, missing, reconcile_policy_attachments,
}
use componator_aws_providers.IamRole.Reconcile.Loops.{Tracks}
use componator_aws_providers.IamRole.Reconcile.Changes.{
  mem-missing, missing-IsAscending, Reports, Tracks-Reports, Changed, apply_changes-Changed,
}

empty_mem : (a : String) (xs : List String) → is_empty xs ≡ true → mem a xs ≡ false
unfolding mem
empty_mem a [] h = refl
empty_mem a (x ∷ xs) h = cc

nothing : (xs : List String) → ((a : String) → mem a xs ≡ false) → is_empty xs ≡ true
unfolding mem
nothing [] h = refl
nothing (x ∷ xs) h = ground (arith, h x, eq_refl x)

-- Where nothing is missing on either side, the two lists have the same members.
nothing_missing :
    (desired current : List String)
    → (is_empty (missing desired current) && is_empty (missing current desired)) ≡ true
    → (a : String) → mem a current ≡ mem a desired
nothing_missing desired current h a = ground (
  arith,
  empty_mem a (missing desired current),
  empty_mem a (missing current desired),
  mem-missing a desired current,
  mem-missing a current desired,
)

module _ {W : Type 0} (client : IamRoleClient W) (attached : W → String → String → Bool)
    (lawful : IsLawful client attached) (role : String) where
  -- What an error reports: nothing, and then the attachments are as before, or those that are left.
  abbrev pub ReportsFailure : Option PolicyReconciliationResult → W → W → Type 0
  ReportsFailure none w₀ w = (a : String) → attached w role a ≡ attached w₀ role a
  ReportsFailure (some r) w₀ w = Reports client attached lawful role r w

  -- How the reconciliation ends, from the world `w₀`.
  abbrev pub Reconciled : List String → W → Result Failure PolicyReconciliationResult × W → Type 0
  Reconciled desired w₀ (err f, w) = ReportsFailure f.result w₀ w
  Reconciled desired w₀ (ok r, w) =
      ((a : String) → attached w role a ≡ mem a desired)
      × (r.attached_policies ≡ sorted (set_of [] desired))

  -- A reported list with exactly the desired members is the sorted list of them.
  reported_desired :
      (desired : List String) (r : PolicyReconciliationResult) (w : W)
      → Reports client attached lawful role r w
      → ((a : String) → mem a r.attached_policies ≡ mem a desired)
      → Reconciled desired w (ok r, w)
  unfolding mem
  reported_desired desired r w rep same = (
    λ a. sym (rep.exact a) ∙ same a,
    IsAscending-eq _ _ rep.ascending (sorted-IsAscending _ (set_of-IsNodup [] desired tt))
        (λ a. same a ∙ sym (mem-sorted a (set_of [] desired) ∙ mem-set_of a [] desired)),
  )

  Changed-Reconciled :
      (desired current : List String) (w₀ : W) (x : Result Failure PolicyReconciliationResult × W)
      → Changed client attached lawful role
          (missing desired current)
          (missing current desired)
          (set_of [] current)
          x
      → Reconciled desired w₀ x
  unfolding mem
  Changed-Reconciled desired current w₀ (err f, w) (r, eq, rep) = rw eq rep
  Changed-Reconciled desired current w₀ (ok r, w) (rep, members) =
      reported_desired desired r w rep (λ a. ground (
        arith,
        members a,
        mem-missing a desired current,
        mem-missing a current desired,
        mem-set_of a [] current,
      ))

  listed_Tracks :
      (w : W) (out : List (Option String))
      → (client.list_attached_role_policies role w).0 ≡ ok out
      → Tracks client attached lawful role
          (set_of [] (map to_string out))
          (client.list_attached_role_policies role w).1
  unfolding mem
  listed_Tracks w out h = record {
    members = λ a.
        mem-set_of a [] (map to_string out)
        ∙ lawful.listed role w out h a
        ∙ sym (lawful.list_keeps role w a);
    nodup = set_of-IsNodup [] (map to_string out) tt;
  }

  missing-IsPart :
      (current desired : List String) → IsPart (missing current desired) (set_of [] current)
  unfolding mem
  missing-IsPart current desired =
      IsPart-of_mem _ _
        (λ a m. ground (arith, mem-missing a current desired, mem-set_of a [] current))

  -- After the listing, whether or not there is something to change.
  compared-Reconciled :
      (desired : List String) (w : W) (out : List (Option String))
      → (client.list_attached_role_policies role w).0 ≡ ok out
      → Reconciled desired w (reconcile_policy_attachments client role desired w)
  unfolding reconcile_policy_attachments list_attached_policies mem
  compared-Reconciled desired w out h =
      let cur = map to_string out in
      let w₁ = (client.list_attached_role_policies role w).1 in
      elim (Bool-cases (is_empty (missing desired cur) && is_empty (missing cur desired))) [
        | inl same ↦
            rw (h, rescue, continue)
              (rw same (
                reported_desired desired (result_of (set_of [] cur) (pos 0) (pos 0)) w₁
                  (Tracks-Reports client attached lawful role (set_of [] cur) w₁ _ refl
                    (listed_Tracks w out h))
                  (λ a.
                    mem-sorted a (set_of [] cur)
                    ∙ mem-set_of a [] cur
                    ∙ nothing_missing desired cur same a)))
        | inr differ ↦
            rw (h, rescue, continue)
              (rw differ (
                Changed-Reconciled desired cur w _ (
                  apply_changes-Changed client attached lawful role (missing desired cur)
                    (missing cur desired) cur w₁ (listed_Tracks w out h)
                    (IsAscending-IsNodup _ (missing-IsAscending cur desired))
                    (missing-IsPart cur desired))))
      ]

  -- Whatever calls fail, the reconciliation reports what is attached when it returns: if it
  -- succeeds, that is exactly the desired policies, sorted and each once; if it fails, the partial
  -- result lists the policies that are attached, sorted and each once, and there is no result only
  -- if the attachments are as before.
  pub reconcile-Reconciled :
      (desired : List String) (w : W)
      → Reconciled desired w (reconcile_policy_attachments client role desired w)
  unfolding reconcile_policy_attachments list_attached_policies
  reconcile-Reconciled desired w =
      elim (Result-cases (client.list_attached_role_policies role w).0) [
        | inl (e, h) ↦ rw (h, rescue, continue) (lawful.list_keeps role w)
        | inr (out, h) ↦ compared-Reconciled desired w out h
      ]

module _ {W : Type 0} (client : IamRoleClient W) (attached : W → String → String → Bool)
    (lawful : IsLawful client attached) (role : String) where
  same_empty :
      (xs ys : List String) → ((a : String) → mem a xs ≡ mem a ys) → is_empty (missing xs ys) ≡ true
  same_empty xs ys same = nothing (missing xs ys) (λ a. ground (arith, mem-missing a xs ys, same a))

  same_sorted :
      (xs ys : List String)
      → ((a : String) → mem a xs ≡ mem a ys)
      → sorted (set_of [] xs) ≡ sorted (set_of [] ys)
  unfolding mem
  same_sorted xs ys same =
      IsAscending-eq _ _ (sorted-IsAscending _ (set_of-IsNodup [] xs tt))
        (sorted-IsAscending _ (set_of-IsNodup [] ys tt))
        (λ a. ground (
          arith,
          mem-sorted a (set_of [] xs),
          mem-sorted a (set_of [] ys),
          mem-set_of a [] xs,
          mem-set_of a [] ys,
          same a,
        ))

  -- Where the listing succeeds and the attachments are the desired ones already, the reconciliation
  -- succeeds after the listing alone, and counts nothing as attached or detached.
  pub reconcile_unchanged :
      (desired : List String) (w : W) (out : List (Option String))
      → (client.list_attached_role_policies role w).0 ≡ ok out
      → ((a : String) → attached w role a ≡ mem a desired)
      → reconcile_policy_attachments client role desired w ≡ (
        ok (result_of (set_of [] desired) (pos 0) (pos 0)),
        (client.list_attached_role_policies role w).1,
      )
  unfolding reconcile_policy_attachments list_attached_policies
  reconcile_unchanged desired w out h already =
      let same = λ (a : String). lawful.listed role w out h a ∙ already a in
      rw (h, rescue, continue)
        (rw (
          same_empty desired (map to_string out) (λ a. sym (same a)),
          same_empty (map to_string out) desired same,
          same_sorted (map to_string out) desired same,
        ))
