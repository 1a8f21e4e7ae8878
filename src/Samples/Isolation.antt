-- ===== src/Samples/Isolation.antt =====
-- The theorem on the calls of the role provider, at a service that counts the calls for other roles.
use componator_aws_providers.Prelude.{
  ℕ, suc, String, ◌≡◌, refl, ap, ◌∙◌, some, [], ◌∷◌, ◌==◌, if◌then◌else◌,
}
use componator_aws_providers.Prelude.Texts.{mem}
use componator_aws_providers.Go.Flow.{ok}
use componator_aws_providers.Go.Along.{Preorder}
use componator_aws_providers.IamRole.Client.{IamRoleClient}
use componator_aws_providers.IamRole.Runs.{Applies, Deletes}
use componator_aws_providers.IamRole.Operations.{
  apply_action, check_applied, delete_action, check_deleted,
}
use componator_aws_providers.IamRole.Operations.Runs.{handlers-Along}
use componator_aws_providers.Samples.Role

abbrev tick : String → ℕ → ℕ
tick r n = if r == "admin" then n else suc n

abbrev counting : IamRoleClient ℕ
counting = record {
  get_role = λ r n. (ok (some Role.admin), tick r n);
  create_role = λ c n. (ok Role.admin, tick c.role_name n);
  update_assume_role_policy = λ r d n. (ok tt, tick r n);
  list_attached_role_policies = λ r n. (ok (some "a" ∷ some "b" ∷ []), tick r n);
  attach_role_policy = λ r p n. (ok tt, tick r n);
  detach_role_policy = λ r p n. (ok tt, tick r n);
  delete_role = λ r n. (ok tt, tick r n);
}

-- No call for another role.
abbrev NotCounted : ℕ → ℕ → Type 0
NotCounted n n' = n' ≡ n

abbrev order : Preorder NotCounted
order = record { same = λ n. refl; trans = λ l m n first second. second ∙ first }

counting-Applies : Applies NotCounted counting "admin" (λ a. mem a Role.spec.managed_policy_arns)
counting-Applies = record {
  get = record { run = λ n. refl };
  create = λ c named. record { run = λ n. ap (λ r. tick r n) named };
  update = λ document. record { run = λ n. refl };
  list = record { run = λ n. refl };
  attach = λ p wanted. record { run = λ n. refl };
  detach = λ p unwanted. record { run = λ n. refl };
}

counting-Deletes : Deletes NotCounted counting "admin"
counting-Deletes = record {
  get = record { run = λ n. refl };
  list = record { run = λ n. refl };
  detach = λ p. record { run = λ n. refl };
  delete = record { run = λ n. refl };
}

handlers-Along_example :
    NotCounted 0 (apply_action Role.json [] counting Role.spec Role.no_status 0).1
    × NotCounted 0 (delete_action Role.json [] counting Role.spec Role.no_status 0).1
    × NotCounted 0 (check_applied Role.json [] counting Role.spec Role.no_status 0).1
    × NotCounted 0 (check_deleted Role.json [] counting Role.spec Role.no_status 0).1
handlers-Along_example =
    handlers-Along Role.json [] counting order Role.spec Role.no_status 0 counting-Applies
      counting-Deletes
