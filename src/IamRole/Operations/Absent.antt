-- ===== src/IamRole/Operations/Absent.antt =====
-- iamrole/operations.go: the handlers but `applyAction` at a role that is not there.
use componator_aws_providers.Prelude.{String, Bool, List}
use componator_aws_providers.Go.Along.{Preorder}
use componator_aws_providers.Aws.{Checker}
use componator_aws_providers.Json.{Json}
use componator_aws_providers.IamRole.Config.{IamRoleConfig, IamRoleStatus}
use componator_aws_providers.IamRole.Client.{IamRoleClient}
use componator_aws_providers.IamRole.Existence.{KnowsRoles, StaysAbsent}
use componator_aws_providers.IamRole.Runs.{Deletes}
use componator_aws_providers.IamRole.Operations.{check_applied, delete_action, check_deleted}
use componator_aws_providers.IamRole.Operations.Runs.{
  delete_action-Along, check_applied-Along, check_deleted-Along,
}

module _ {W : Type 0} (json : Json) (checkers : List Checker) (client : IamRoleClient W)
    (exists : W → String → Bool) (knows : KnowsRoles exists client) (spec : IamRoleConfig) where
  abbrev staying : Preorder (StaysAbsent exists spec.role_name)
  staying = record { same = λ w h. h; trans = λ u v w first second h. second (first h) }

  calls-Deletes : Deletes (StaysAbsent exists spec.role_name) client spec.role_name
  calls-Deletes = record {
    get = record { run = knows.get_stays spec.role_name };
    list = record { run = knows.list_stays spec.role_name };
    detach = λ p. record { run = knows.detach_stays spec.role_name p };
    delete = record { run = knows.delete_stays spec.role_name };
  }

  pub delete_action-StaysAbsent :
      (status : IamRoleStatus) (w : W)
      → StaysAbsent exists spec.role_name w (delete_action json checkers client spec status w).1
  delete_action-StaysAbsent = delete_action-Along json checkers client staying spec calls-Deletes

  pub check_applied-StaysAbsent :
      (status : IamRoleStatus) (w : W)
      → StaysAbsent exists spec.role_name w (check_applied json checkers client spec status w).1
  check_applied-StaysAbsent status w =
      check_applied-Along json checkers client staying spec status w calls-Deletes.get

  pub check_deleted-StaysAbsent :
      (status : IamRoleStatus) (w : W)
      → StaysAbsent exists spec.role_name w (check_deleted json checkers client spec status w).1
  check_deleted-StaysAbsent status w =
      check_deleted-Along json checkers client staying spec status w calls-Deletes.get
