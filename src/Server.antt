-- ===== src/Server.antt =====
-- controllers/mcpserver_controller.go: the object that is reconciled, what answers to the
-- controller, and what it does to others. The clock stands during a reconciliation. A write that is
-- accepted leaves the object as sent. The renderer, the deployment service and the Istio controller
-- are known by their answers only.
pub mod Registered
pub mod Deployed
pub mod Deploy
pub mod Reconcile
pub mod Watch
mod Unrendered
mod Readiness
mod Watched
mod Tests
use mcp_operator.Prelude.{
  ℕ, String, ◌==◌, ◌⊎◌, Bool, false, not, Option, none, some, List, [], ◌∷◌, ◌++◌, if◌then◌else◌,
  is_some, ℤ, concat, Dict,
}
use mcp_operator.Api.{RegistryRef, GatewaySpec, McpServer, Quantities}
use mcp_operator.Status.{condition_false, DeploymentStatus, set_condition, update_mcp_server_status}
use mcp_operator.Validation.Quota.{Cluster}
use mcp_operator.RegistryService.{Registry}
use mcp_operator.RetryService.{DefaultRetryService}

pub record Managed (Q : Type 0) : Type 0 where
  pub server : McpServer Q
  pub finalizers : List String
  pub is_deleted : Bool
  pub gateway : Option GatewaySpec
  pub resolved_hash : String
  pub resolved_config_map : Option String

-- A deployment as `GetDeploymentStatus` gives it.
pub record Deployment : Type 0 where
  pub desired : Option ℤ
  pub generation : ℤ
  pub observed_generation : ℤ
  pub updated_replicas : ℤ
  pub status : DeploymentStatus

-- `R` is the rendered resource.
pub record Controls (Q R : Type 0) : Type 0 where
  pub now : ℤ
  pub patch : Managed Q → Option String
  pub update : Managed Q → Option String
  pub update_status : McpServer Q → Option String
  pub registry : Registry
  pub lib : Quantities Q
  pub show_int : ℤ → String
  pub show_duration : ℤ → String
  pub cluster : Cluster Q
  -- The resources and the text, and the hash of a text.
  pub render : McpServer Q → String ⊎ List R × String
  pub hash : String → String
  pub own : McpServer Q → R → Option String
  pub own_config_map : McpServer Q → Option String
  -- The answers of the API server by the number of the attempt.
  pub apply_config_map : ℕ → Option String
  pub apply : ℕ → R → Option String
  pub labelled : Dict String → R → R
  pub is_done : ℕ → Bool
  pub is_cut : ℕ → Bool
  pub retry : DefaultRetryService
  pub deployment : McpServer Q → String ⊎ Deployment
  pub delete_resources : McpServer Q → Option String
  -- Absent if there is no Istio controller.
  pub reconcile_istio : Option (McpServer Q → (port : ℤ) → Option String)
  pub cleanup_istio : McpServer Q → Option String
  pub has_cache : Bool

pub data Effect (Q R : Type 0) : Type 0 where
  patched : Managed Q → Effect Q R
  updated : Managed Q → Effect Q R
  status_updated : McpServer Q → Effect Q R
  warned : (reason message : String) → Effect Q R
  noted : (reason message : String) → Effect Q R
  invalidated_server : String → Effect Q R
  invalidated_registry : String → Effect Q R
  config_map_applied : (name text : String) → Effect Q R
  resource_applied : R → Effect Q R

-- The result of a reconciliation, without a duration in any.
pub record Ran (Q R : Type 0) : Type 0 where
  pub effects : List (Effect Q R)
  pub requeue : Bool
  pub error : Option String

abbrev pub ran : {Q R : Type 0} → List (Effect Q R) → Bool → Option String → Ran Q R
ran effects requeue error = record { effects = effects; requeue = requeue; error = error }

abbrev pub finalizer : String
finalizer = "mcp.allbeone.io/finalizer"

-- The name of the registry: the field, else its alias, else nothing.
abbrev pub name_in : RegistryRef → String
name_in r = if not (r.name == "") then r.name else r.registry

abbrev pub registry_of : Option RegistryRef → String
registry_of none = ""
registry_of (some r) = name_in r

abbrev pub server_in : (name : String) → RegistryRef → String
server_in name r = if not (r.server_name == "") then r.server_name else name

abbrev pub server_of : (name : String) → Option RegistryRef → String
server_of name none = ""
server_of name (some r) = server_in name r

abbrev pub with_server : {Q : Type 0} → McpServer Q → Managed Q → Managed Q
with_server s m = record m { server = s }

abbrev pub cache_key : {Q : Type 0} → McpServer Q → String
cache_key s = concat ("mcpserver:" ∷ s.namespace ∷ ":" ∷ s.name ∷ [])

module _ {Q R : Type 0} (env : Controls Q R) where
  -- A failure of the specification: the condition, the event, and the status, whose error is
  -- logged.
  unfoldable pub report : List (Effect Q R) → (kind reason message : String) → McpServer Q → Ran Q R
  unfolding set_condition update_mcp_server_status
  report effects kind reason message s =
      let t = set_condition env.now kind condition_false reason message s in
      let (sent, err) = update_mcp_server_status env.now env.update_status t in
      ran
        (effects
          ++ (warned reason message ∷ (if is_some err then [] else status_updated sent ∷ [])))
        false none

  -- The cache entries of a server and of its registry are dropped, where there is a cache.
  abbrev pub invalidations : McpServer Q → (registry : String) → List (Effect Q R)
  invalidations s registry =
      if env.has_cache
      then invalidated_server (cache_key s)
        ∷ (if registry == "" then [] else invalidated_registry registry ∷ [])
      else []
