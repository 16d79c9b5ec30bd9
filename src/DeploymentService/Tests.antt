-- ===== src/DeploymentService/Tests.antt =====
-- The network policy of the tenant acme, of a server with the name files, and the theorem at it.
use mcp_operator.Prelude.{ℕ, ◌≡◌, refl, inr, none, some, [], ◌∷◌, if◌then◌else◌}
use mcp_operator.ResourceBuilder.NetworkPolicy.{policy_for, build_network_policy}
use mcp_operator.ResourceBuilder.Tests.{plain, policy, protected}
use mcp_operator.DeploymentService.{
  a_service, a_network_policy, Resource, Faults, same_kind, find_object, remove_object,
  create_or_update, policy_object, create_or_update_network_policy, delete_resources,
}
use mcp_operator.DeploymentService.Survives.{
  find_object-delete_resources-create_or_update_network_policy,
}

abbrev no_faults : Faults
no_faults = record { own = none; get = none; create = none; update = none; delete = λ kind. none }

-- The deletion of the service fails.
abbrev later_faults : Faults
later_faults = record no_faults {
  delete = λ kind. if same_kind kind a_service then some "busy" else none;
}

abbrev kept : Resource ℕ ℕ
kept = policy_object policy

stored_policy : create_or_update_network_policy no_faults plain [] ≡ inr (kept, kept ∷ [])
unfolding create_or_update_network_policy create_or_update find_object remove_object
    build_network_policy
stored_policy = refl

find_object-delete_resources-create_or_update_network_policy_example :
    find_object a_network_policy policy.name policy.namespace
      (delete_resources later_faults plain.server (kept ∷ []))
    ≡ some kept
unfolding policy_for
find_object-delete_resources-create_or_update_network_policy_example =
    find_object-delete_resources-create_or_update_network_policy no_faults later_faults plain policy
      kept [] (kept ∷ []) protected refl stored_policy
