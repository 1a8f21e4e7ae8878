-- ===== src/IamRole/Operations/Deleted.antt =====
-- What `deleteAction` of the role provider does before the role is deleted.
use componator_aws_providers.Prelude.{
  ℕ, suc, ◌+◌, String, ◌≡◌, inl, inr, Bool, false, Option, List, [], ◌∷◌, map, length, not, ◌&&◌,
  ◌==◌, arith,
}
use componator_aws_providers.Prelude.Texts.{mem}
use componator_aws_providers.Go.Flow.{Result, ok, err, rescue, continue, Result-cases}
use componator_aws_providers.Aws.{to_string, Checker}
use componator_aws_providers.Toolkit.{ActionResult}
use componator_aws_providers.Json.{Json}
use componator_aws_providers.IamRole.Config.{IamRoleConfig, IamRoleStatus}
use componator_aws_providers.IamRole.Client.{IamRoleClient}
use componator_aws_providers.IamRole.Attachments.{IsLawful}
use componator_aws_providers.IamRole.Calls.{detach_policy}
use componator_aws_providers.IamRole.Operations.{detach_all}

module _ {W : Type 0} (json : Json) (checkers : List Checker) (client : IamRoleClient W)
    (attached : W → String → String → Bool) (lawful : IsLawful client attached) where
  -- After a run without error over `arns`, only policies outside `arns` are attached, and all of
  -- `arns` were counted on top of `n`.
  abbrev pub DetachedAll :
      String → List String → W → ℕ → Result (ActionResult IamRoleStatus) ℕ × W → Type 0
  DetachedAll role arns w₀ n (err r, w) = Unit
  DetachedAll role arns w₀ n (ok k, w) =
      ((a : String) → attached w role a ≡ (not (mem a arns) && attached w₀ role a))
      × (k ≡ n + length arns)

  DetachedAll-cons :
      (role p : String) (rest : List String) (w₀ w₁ : W) (n : ℕ)
      (x : Result (ActionResult IamRoleStatus) ℕ × W)
      → ((a : String) → attached w₁ role a ≡ (not (p == a) && attached w₀ role a))
      → DetachedAll role rest w₁ (suc n) x
      → DetachedAll role (p ∷ rest) w₀ n x
  unfolding mem
  DetachedAll-cons role p rest w₀ w₁ n (err r, w) first later = tt
  DetachedAll-cons role p rest w₀ w₁ n (ok k, w) first (gone, count) =
      (λ a. ground (arith, first a, gone a), omega arith)

  detach_all-DetachedAll :
      (spec : IamRoleConfig) (status : IamRoleStatus) (arns : List String) (n : ℕ) (w : W)
      → DetachedAll spec.role_name arns w n (detach_all json checkers client spec status arns n w)
  unfolding detach_all detach_policy mem
  detach_all-DetachedAll spec status [] n w = (λ a. ground arith, omega arith)
  detach_all-DetachedAll spec status (p ∷ rest) n w =
      elim (Result-cases (client.detach_role_policy spec.role_name p w).0) [
        | inl (e, h) ↦ rw (h, rescue, continue) tt
        | inr (u, h) ↦
            rw (h, rescue, continue)
              (DetachedAll-cons spec.role_name p rest w
                (client.detach_role_policy spec.role_name p w).1 n _
                (lawful.detach_done spec.role_name p w h)
                (detach_all-DetachedAll spec status rest (suc n) _))
      ]

  -- The loop of `deleteAction` over the policies that the listing gave either stops with an error,
  -- or ends in a world in which nothing is attached to the role, with all of them counted. So the
  -- deletion of the role, which comes next, meets no attached policy.
  pub detach_all-nothing_attached :
      (spec : IamRoleConfig) (status : IamRoleStatus) (w : W) (out : List (Option String)) (k : ℕ)
      → (client.list_attached_role_policies spec.role_name w).0 ≡ ok out
      → (detach_all json checkers client spec status
          (map to_string out)
          0
          (client.list_attached_role_policies spec.role_name w).1).0
        ≡ ok k
      → let run =
          detach_all json checkers client spec status
            (map to_string out)
            0
            (client.list_attached_role_policies spec.role_name w).1 in
        ((a : String) → attached run.1 spec.role_name a ≡ false) × (k ≡ length (map to_string out))
  detach_all-nothing_attached spec status w out k h done =
      let w₁ = (client.list_attached_role_policies spec.role_name w).1 in
      let (gone, count) =
        rw done at (detach_all-DetachedAll spec status (map to_string out) 0 w₁) in
      (
        λ a. ground (
          arith,
          gone a,
          lawful.list_keeps spec.role_name w a,
          lawful.listed spec.role_name w out h a,
        ),
        omega arith,
      )
