-- ===== src/IamRole/Operations/Refinement.antt =====
-- iamrole/operations.go: the handlers against the abstract role.
use componator_aws_providers.Prelude.{
  String, ◌≡◌, refl, sym, ◌∙◌, inl, inr, Bool, true, false, List,
}
use componator_aws_providers.Prelude.Texts.{mem}
use componator_aws_providers.Go.Flow.{Proc, Result-cases}
use componator_aws_providers.Go.Along.{Preorder, Along}
use componator_aws_providers.Aws.{Checker}
use componator_aws_providers.Json.{Json}
use componator_aws_providers.IamRole.Config.{IamRoleConfig, IamRoleStatus}
use componator_aws_providers.IamRole.Moves.{
  Policies, ◌≈◌, Moves, still, next, attach, detach, Moves-trans,
}
use componator_aws_providers.IamRole.Client.{CreateRoleInput, IamRoleClient}
use componator_aws_providers.IamRole.Attachments.{IsLawful, KeepsAttachments}
use componator_aws_providers.IamRole.Runs.{Applies, Deletes}
use componator_aws_providers.IamRole.Operations.{
  apply_action, check_applied, delete_action, check_deleted,
}
use componator_aws_providers.IamRole.Operations.Runs.{
  apply_action-Along, delete_action-Along, check_applied-Along, check_deleted-Along,
}

module _ {W : Type 0} (client : IamRoleClient W) (attached : W → String → String → Bool)
    (lawful : IsLawful client attached) (keeps : KeepsAttachments client attached)
    (role : String) where
  -- Nothing is attached or detached between the two worlds.
  abbrev Same : W → W → Type 0
  Same w w' = attached w' role ≈ attached w role

  abbrev same_order : Preorder Same
  same_order = record { same = λ w a. refl; trans = λ u v w first second a. second a ∙ first a }

  get-Same : Along Same (client.get_role role)
  get-Same = record { run = keeps.get_keeps role }

  module _ (desired : Policies) where
    -- From `w` to `w'` the role moves towards the desired policies.
    abbrev Toward : W → W → Type 0
    Toward w w' = Moves desired (attached w role) (attached w' role)

    abbrev toward_order : Preorder Toward
    toward_order = record { same = λ w. still (λ a. refl); trans = λ u v w. Moves-trans desired }

    unmoved :
        {E A : Type 0} (m : Proc W E A)
        → ((w : W) (a : String) → attached (m w).1 role a ≡ attached w role a)
        → Along Toward m
    unmoved m kept = record { run = λ w. still (kept w) }

    detach-Toward :
        (p : String) → desired p ≡ false → Along Toward (client.detach_role_policy role p)
    detach-Toward p d = record {
      run = λ w. elim (Result-cases (client.detach_role_policy role p w).0) [
        | inl (e, h) ↦ still (lawful.detach_failed role p w e h)
        | inr (u, h) ↦ next (still (λ a. refl)) (detach p d (lawful.detach_done role p w h))
      ];
    }

    attach-Toward :
        (p : String) → desired p ≡ true → Along Toward (client.attach_role_policy role p)
    attach-Toward p d = record {
      run = λ w. elim (Result-cases (client.attach_role_policy role p w).0) [
        | inl (e, h) ↦ still (lawful.attach_failed role p w e h)
        | inr (u, h) ↦ next (still (λ a. refl)) (attach p d (lawful.attach_done role p w h))
      ];
    }

    create-Toward : (c : CreateRoleInput) → c.role_name ≡ role → Along Toward (client.create_role c)
    create-Toward c named = record { run = λ w. still (rw (sym named) (keeps.create_keeps c w)) }

    calls-Applies : Applies Toward client role desired
    calls-Applies = record {
      get = unmoved (client.get_role role) (keeps.get_keeps role);
      create = create-Toward;
      update = λ document.
          unmoved (client.update_assume_role_policy role document)
            (keeps.update_keeps role document);
      list = unmoved (client.list_attached_role_policies role) (lawful.list_keeps role);
      attach = attach-Toward;
      detach = detach-Toward;
    }

    calls-Deletes : ((p : String) → desired p ≡ false) → Deletes Toward client role
    calls-Deletes none_desired = record {
      get = unmoved (client.get_role role) (keeps.get_keeps role);
      list = unmoved (client.list_attached_role_policies role) (lawful.list_keeps role);
      detach = λ p. detach-Toward p (none_desired p);
      delete = unmoved (client.delete_role role) (keeps.delete_keeps role);
    }

module _ {W : Type 0} (json : Json) (checkers : List Checker) (client : IamRoleClient W)
    (attached : W → String → String → Bool) (lawful : IsLawful client attached)
    (keeps : KeepsAttachments client attached) where
  -- Whatever calls fail, the handlers of a role follow the abstract role: `applyAction` attaches and
  -- detaches policies one at a time, only ever attaches a managed policy and only ever detaches one
  -- that is not managed; `deleteAction` only ever detaches; and the two checks change no attachment.
  pub handlers-Moves :
      (spec : IamRoleConfig) (status : IamRoleStatus) (w : W)
      → Moves
          (λ a. mem a spec.managed_policy_arns)
          (attached w spec.role_name)
          (attached (apply_action json checkers client spec status w).1 spec.role_name)
        × Moves
            (λ a. false)
            (attached w spec.role_name)
            (attached (delete_action json checkers client spec status w).1 spec.role_name)
        × (attached (check_applied json checkers client spec status w).1 spec.role_name
            ≈ attached w spec.role_name)
        × (attached (check_deleted json checkers client spec status w).1 spec.role_name
            ≈ attached w spec.role_name)
  handlers-Moves spec status w =
      let role = spec.role_name in
      let wanted : Policies = λ a. mem a spec.managed_policy_arns in
      let nothing : Policies = λ a. false in
      let same = same_order client attached lawful keeps role in
      let get = get-Same client attached lawful keeps role in
      (
        apply_action-Along json checkers client
            (toward_order client attached lawful keeps role wanted) spec status w
            (calls-Applies client attached lawful keeps role wanted),
        delete_action-Along json checkers client
            (toward_order client attached lawful keeps role nothing) spec
            (calls-Deletes client attached lawful keeps role nothing (λ p. refl)) status w,
        check_applied-Along json checkers client same spec status w get,
        check_deleted-Along json checkers client same spec status w get,
      )
