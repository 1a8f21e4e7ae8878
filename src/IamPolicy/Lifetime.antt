-- ===== src/IamPolicy/Lifetime.antt =====
-- A policy over the calls of a controller, after it was applied and after it was deleted.
use componator_aws_providers.Prelude.{String, ◌≡◌, ◌≢◌, refl, ◌∙◌, ap, inl, inr, Bool, false, List}
use componator_aws_providers.Go.{Message}
use componator_aws_providers.Aws.{Checker}
use componator_aws_providers.Json.{Json}
use componator_aws_providers.Toolkit.{NamespacedName, action_success, is_in_progress}
use componator_aws_providers.Lifecycle.{Call, is_apply, is_delete, called, Reach, Reach_keeps}
use componator_aws_providers.IamPolicy.Config.{IamPolicyConfig, IamPolicyStatus}
use componator_aws_providers.IamPolicy.Client.{IamPolicyClient}
use componator_aws_providers.IamPolicy.Existence.{KnowsPolicies, StaysAbsent}
use componator_aws_providers.IamPolicy.Documents.{KeepsDocuments, PutsInEffect, Agrees}
use componator_aws_providers.IamPolicy.Operations.{apply_action, delete_action, check_deleted}
use componator_aws_providers.IamPolicy.Operations.Applied.{apply_action-AppliedDocument}
use componator_aws_providers.IamPolicy.Operations.Kept.{
  Keeps, apply_action-Keeps, check_applied-Keeps, check_deleted-Keeps,
}
use componator_aws_providers.IamPolicy.Operations.Gone.{delete_action-Gone}
use componator_aws_providers.IamPolicy.Operations.Absent.{
  Absent, delete_action-Absent, check_applied-Absent, check_deleted-Absent,
}
use componator_aws_providers.IamPolicy.Register.{provider}

module _ {W : Type 0} (json : Json) (checkers : List Checker) (client : IamPolicyClient W)
    (effective : W → String → String) (puts : PutsInEffect client effective)
    (provider_name : String) (name : NamespacedName) (spec : IamPolicyConfig) where
  called-Keeps :
      (k : Call)
      → is_delete k ≡ false
      → (s : IamPolicyStatus) (w : W)
      → Keeps json checkers client effective puts spec.policy_document w
          (called name spec (provider json checkers client provider_name) k (s, w)).1
  called-Keeps Call.apply d s w = apply_action-Keeps json checkers client effective puts spec s w
  called-Keeps Call.apply_check d s w =
      check_applied-Keeps json checkers client effective puts spec.policy_document s w
  called-Keeps Call.delete d s w = cc
  called-Keeps Call.delete_check d s w =
      check_deleted-Keeps json checkers client effective puts spec.policy_document s w
  called-Keeps Call.health_check d s w = λ arn. inl refl

  -- A document that agrees with the desired one is left, or replaced by the desired one.
  Agrees-Keeps :
      (arn : String) (w w' : W)
      → Keeps json checkers client effective puts spec.policy_document w w'
      → Agrees json (effective w arn) spec.policy_document
      → Agrees json (effective w' arn) spec.policy_document
  Agrees-Keeps arn w w' kept agrees = elim (kept arn) [ inl e ↦ rw e agrees | inr e ↦ inr e ]

  -- Once an `applyAction` of the policy has succeeded, the document in effect at the ARN of its
  -- status is the configured one, or agrees with it as JSON, over any further calls of the handlers
  -- but `deleteAction`, in any order, with their statuses stored or lost, whether they succeed or
  -- fail at any of their calls, as long as the configuration is the same and nobody else puts
  -- another document in effect. The service may give the documents in another form, such as the URL
  -- encoding, as long as a document whose other form agrees with a text as JSON agrees with it itself.
  pub Reach-Agrees :
      (given : String → String)
      → KeepsDocuments json given client effective
      → (status s : IamPolicyStatus) (m : Message) (w : W)
      → (apply_action json checkers client spec status w).0 ≡ action_success s m
      → (y : IamPolicyStatus × W)
      → Reach
          (provider json checkers client provider_name)
          name
          spec
          (Keeps json checkers client effective puts spec.policy_document)
          (λ k. is_delete k ≡ false)
          (s, (apply_action json checkers client spec status w).1)
          y
      → Agrees json (effective y.1 s.policy_arn) spec.policy_document
  Reach-Agrees given keeps status s m w h y r =
      Reach_keeps _ name spec _ _
        (λ x. Agrees json (effective x.1 s.policy_arn) spec.policy_document)
        (λ k d x g. (
          Agrees-Keeps s.policy_arn x.1 _ (called-Keeps k d x.0 x.1) g,
          Agrees-Keeps s.policy_arn x.1 _ (called-Keeps k d x.0 x.1) g,
        ))
        (λ t w₁ w₂ o g. Agrees-Keeps s.policy_arn w₁ w₂ o g) r
        (rw h at
          (apply_action-AppliedDocument json checkers client given effective keeps spec status w))

module _ {W : Type 0} (json : Json) (checkers : List Checker) (client : IamPolicyClient W)
    (exists : W → String → Bool) (knows : KnowsPolicies exists client) (provider_name : String)
    (name : NamespacedName) (spec : IamPolicyConfig) (arn : String) (named : arn ≢ "") where
  -- The status names the policy, and the policy is not there.
  abbrev IsGone : IamPolicyStatus × W → Type 0
  IsGone (s, w) = (s.policy_arn ≡ arn) × (exists w arn ≡ false)

  Absent-IsGone :
      (s : IamPolicyStatus) (x : IamPolicyStatus × W)
      → s.policy_arn ≡ arn
      → Absent json checkers client exists knows s x
      → IsGone x
  Absent-IsGone s (s', w) e (same, gone) = (ap (λ t. t.policy_arn) same ∙ e, rw e at gone)

  called-IsGone :
      (k : Call)
      → is_apply k ≡ false
      → (s : IamPolicyStatus) (w : W) → IsGone (s, w)
      → IsGone (called name spec (provider json checkers client provider_name) k (s, w))
  called-IsGone Call.apply a s w g = cc
  called-IsGone Call.apply_check a s w (e, gone) =
      Absent-IsGone s _ e (check_applied-Absent json checkers client exists knows s w (rw e gone))
  called-IsGone Call.delete a s w (e, gone) =
      Absent-IsGone s _ e
        (delete_action-Absent json checkers client exists knows s w (rw e named) (rw e gone))
  called-IsGone Call.delete_check a s w (e, gone) =
      Absent-IsGone s _ e
        (check_deleted-Absent json checkers client exists knows s w (rw e named) (rw e gone)).0
  called-IsGone Call.health_check a s w g = g

  Reach-IsGone :
      {x y : IamPolicyStatus × W}
      → Reach
          (provider json checkers client provider_name)
          name
          spec
          (StaysAbsent exists arn)
          (λ k. is_apply k ≡ false)
          x
          y
      → IsGone x
      → IsGone y
  Reach-IsGone r =
      Reach_keeps _ name spec _ _ IsGone
        (λ k a x g. let after = called-IsGone k a x.0 x.1 g in (after, (g.0, after.1)))
        (λ s w w' o g. (g.0, o g.1)) r

module _ {W : Type 0} (json : Json) (checkers : List Checker) (client : IamPolicyClient W)
    (exists : W → String → Bool) (knows : KnowsPolicies exists client) (provider_name : String)
    (name : NamespacedName) (spec : IamPolicyConfig) where
  -- Once a `deleteAction` has succeeded with a status that names a policy, the policy is not there
  -- and `checkDeleted` never says that the deletion is in progress, over any further calls of the
  -- handlers but `applyAction`, in any order, with their statuses stored or lost, as long as nobody
  -- else brings the policy about.
  pub Reach-deleted :
      (status s : IamPolicyStatus) (m : Message) (w : W)
      → status.policy_arn ≢ ""
      → (delete_action json checkers client status w).0 ≡ action_success s m
      → (y : IamPolicyStatus × W)
      → Reach
          (provider json checkers client provider_name)
          name
          spec
          (StaysAbsent exists status.policy_arn)
          (λ k. is_apply k ≡ false)
          (s, (delete_action json checkers client status w).1)
          y
      → (exists y.1 status.policy_arn ≡ false)
        × (is_in_progress (check_deleted json checkers client y.0 y.1).0 ≡ false)
  Reach-deleted status s m w named h y r =
      let arn = status.policy_arn in
      let (same, gone) =
        rw h at (delete_action-Gone json checkers client exists knows status w named) in
      let (e, absent) =
        Reach-IsGone json checkers client exists knows provider_name name spec arn named r
          (ap (λ t. t.policy_arn) same, gone) in
      (
        absent,
        (check_deleted-Absent json checkers client exists knows y.0 y.1 (rw e named)
            (rw e absent)).1,
      )
