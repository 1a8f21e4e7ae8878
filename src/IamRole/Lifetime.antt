-- ===== src/IamRole/Lifetime.antt =====
-- A role over the calls of a controller, after it was applied and after it was deleted.
use componator_aws_providers.Prelude.{String, ◌≡◌, refl, ◌∙◌, inl, inr, Bool, false, List}
use componator_aws_providers.Prelude.Texts.{mem}
use componator_aws_providers.Go.{Message}
use componator_aws_providers.Aws.{Checker}
use componator_aws_providers.Json.{Json}
use componator_aws_providers.Toolkit.{
  NamespacedName, action_success, CheckResult, check_complete, check_in_progress,
  check_result_for_error, is_in_progress,
}
use componator_aws_providers.Lifecycle.{Call, is_apply, is_delete, called, Reach, Reach_keeps}
use componator_aws_providers.IamRole.Config.{IamRoleConfig, IamRoleStatus}
use componator_aws_providers.IamRole.Moves.{Policies, ◌≈◌, Moves, Moves-Between}
use componator_aws_providers.IamRole.Client.{IamRoleClient}
use componator_aws_providers.IamRole.Attachments.{IsLawful, KeepsAttachments}
use componator_aws_providers.IamRole.Existence.{KnowsRoles, StaysAbsent}
use componator_aws_providers.IamRole.Operations.{apply_action, delete_action, check_deleted}
use componator_aws_providers.IamRole.Operations.Gone.{
  Tells, delete_action-Gone, check_deleted-Tells,
}
use componator_aws_providers.IamRole.Operations.Absent.{
  delete_action-StaysAbsent, check_applied-StaysAbsent, check_deleted-StaysAbsent,
}
use componator_aws_providers.IamRole.Operations.Applied.{apply_action-Applied}
use componator_aws_providers.IamRole.Operations.Refinement.{handlers-Moves}
use componator_aws_providers.IamRole.Register.{provider}

-- Moves from the desired policies towards them lead nowhere else.
at_rest : {desired A B : Policies} → Moves desired A B → A ≈ desired → B ≈ desired
at_rest {desired} r same a = elim (Moves-Between desired r a) [ inl e ↦ e ∙ same a | inr e ↦ e ]

module _ {W : Type 0} (json : Json) (checkers : List Checker) (client : IamRoleClient W)
    (attached : W → String → String → Bool) (lawful : IsLawful client attached)
    (keeps : KeepsAttachments client attached) (provider_name : String) (name : NamespacedName)
    (spec : IamRoleConfig) where
  abbrev wanted : Policies
  wanted a = mem a spec.managed_policy_arns

  called_keeps :
      (k : Call)
      → is_delete k ≡ false
      → (s : IamRoleStatus) (w : W) → attached w spec.role_name ≈ wanted
      → attached
          (called name spec (provider json checkers client provider_name) k (s, w)).1
          spec.role_name
        ≈ wanted
  called_keeps Call.apply d s w h a =
      at_rest (handlers-Moves json checkers client attached lawful keeps spec s w).0 h a
  called_keeps Call.apply_check d s w h a =
      let (applied, deleted, check, done) =
        handlers-Moves json checkers client attached lawful keeps spec s w in
      check a ∙ h a
  called_keeps Call.delete d s w h a = cc
  called_keeps Call.delete_check d s w h a =
      let (applied, deleted, done, check) =
        handlers-Moves json checkers client attached lawful keeps spec s w in
      check a ∙ h a
  called_keeps Call.health_check d s w h a = h a

  pub Reach-attached :
      {x y : IamRoleStatus × W}
      → Reach
          (provider json checkers client provider_name)
          name
          spec
          (λ w w'. attached w' spec.role_name ≈ attached w spec.role_name)
          (λ k. is_delete k ≡ false)
          x
          y
      → attached x.1 spec.role_name ≈ wanted
      → attached y.1 spec.role_name ≈ wanted
  Reach-attached r h =
      Reach_keeps _ name spec _ _ (λ x. attached x.1 spec.role_name ≈ wanted)
        (λ k d x g. (called_keeps k d x.0 x.1 g, called_keeps k d x.0 x.1 g))
        (λ s w w' o g a. o a ∙ g a) r h

  -- Once an `applyAction` of the role has succeeded, exactly the managed policies stay attached to
  -- the role over any further calls of its handlers but `deleteAction`, in any order, with their
  -- statuses stored or lost, whether they succeed or fail at any of their calls, as long as the
  -- configuration is the same and nobody else attaches or detaches a policy.
  pub Reach-applied :
      (status s : IamRoleStatus) (m : Message) (w : W)
      → (apply_action json checkers client spec status w).0 ≡ action_success s m
      → (y : IamRoleStatus × W)
      → Reach
          (provider json checkers client provider_name)
          name
          spec
          (λ w w'. attached w' spec.role_name ≈ attached w spec.role_name)
          (λ k. is_delete k ≡ false)
          (s, (apply_action json checkers client spec status w).1)
          y
      → attached y.1 spec.role_name ≈ λ a. mem a spec.managed_policy_arns
  Reach-applied status s m w h y r =
      Reach-attached r
        (rw h at (apply_action-Applied json checkers client attached lawful spec status w)).0

module _ {W : Type 0} (json : Json) (checkers : List Checker) (client : IamRoleClient W)
    (exists : W → String → Bool) (knows : KnowsRoles exists client) (provider_name : String)
    (name : NamespacedName) (spec : IamRoleConfig) where
  called-StaysAbsent :
      (k : Call)
      → is_apply k ≡ false
      → (s : IamRoleStatus) (w : W)
      → StaysAbsent exists spec.role_name w
          (called name spec (provider json checkers client provider_name) k (s, w)).1
  called-StaysAbsent Call.apply a s w = cc
  called-StaysAbsent Call.apply_check a s w =
      check_applied-StaysAbsent json checkers client exists knows spec s w
  called-StaysAbsent Call.delete a s w =
      delete_action-StaysAbsent json checkers client exists knows spec s w
  called-StaysAbsent Call.delete_check a s w =
      check_deleted-StaysAbsent json checkers client exists knows spec s w
  called-StaysAbsent Call.health_check a s w = λ h. h

  Reach-absent :
      {x y : IamRoleStatus × W}
      → Reach
          (provider json checkers client provider_name)
          name
          spec
          (StaysAbsent exists spec.role_name)
          (λ k. is_apply k ≡ false)
          x
          y
      → StaysAbsent exists spec.role_name x.1 y.1
  Reach-absent r h =
      Reach_keeps _ name spec _ _ (λ x. exists x.1 spec.role_name ≡ false)
        (λ k a x g. (called-StaysAbsent k a x.0 x.1 g, called-StaysAbsent k a x.0 x.1 g))
        (λ s w w' o g. o g) r h

  not_waiting :
      (r : CheckResult IamRoleStatus) (w : W)
      → Tells json checkers client exists knows spec.role_name (r, w)
      → exists w spec.role_name ≡ false
      → is_in_progress r ≡ false
  not_waiting (check_complete s m) w tells gone = refl
  not_waiting (check_in_progress s m) w tells gone = cc
  not_waiting (check_result_for_error s e c) w tells gone = refl

  -- Once a `deleteAction` of the role has succeeded, the role is not there and `checkDeleted` never
  -- says that the deletion is in progress, over any further calls of the handlers but `applyAction`,
  -- in any order, with their statuses stored or lost, as long as the configuration is the same and
  -- nobody else creates the role.
  pub Reach-gone :
      (status s : IamRoleStatus) (m : Message) (w : W)
      → (delete_action json checkers client spec status w).0 ≡ action_success s m
      → (y : IamRoleStatus × W)
      → Reach
          (provider json checkers client provider_name)
          name
          spec
          (StaysAbsent exists spec.role_name)
          (λ k. is_apply k ≡ false)
          (s, (delete_action json checkers client spec status w).1)
          y
      → (exists y.1 spec.role_name ≡ false)
        × (is_in_progress (check_deleted json checkers client spec y.0 y.1).0 ≡ false)
  Reach-gone status s m w h y r =
      let gone =
        Reach-absent r
          (rw h at (delete_action-Gone json checkers client exists knows spec status w)) in
      (
        gone,
        not_waiting (check_deleted json checkers client spec y.0 y.1).0
            (check_deleted json checkers client spec y.0 y.1).1
            (check_deleted-Tells json checkers client exists knows spec y.0 y.1)
            (check_deleted-StaysAbsent json checkers client exists knows spec y.0 y.1 gone),
      )
