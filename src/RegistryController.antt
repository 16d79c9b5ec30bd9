-- ===== src/RegistryController.antt =====
-- controllers/mcpregistry_controller.go: the registry that is reconciled, what answers to the
-- controller, and what it does. The GitHub client and the registry cache are known by their
-- answers.
pub mod Update
pub mod Sync
mod Phases
mod Kept
mod Tests
use mcp_operator.Prelude.{ℕ, ◌*◌, String, ◌⊎◌, Bool, Option, List, ℤ, pos, Dict}
use mcp_operator.Api.{Condition}
use mcp_operator.Status.{put_condition, make_condition}
use mcp_operator.RegistryService.{Read}
use mcp_operator.RegistryService.Token.{Auth, ServerInfo}

-- `Spec.Source`; the repository and the branch are those of GitHub.
pub record SourceSpec : Type 0 where
  pub kind : String
  pub github : Option (String × String)
  pub path : String

pub record CatalogSpec : Type 0 where
  pub url : String
  pub source : Option SourceSpec
  pub auth : Option Auth
  pub refresh_interval : Option ℤ

-- A server in the status.
pub record Listed : Type 0 where
  pub name : String
  pub path : String
  pub title : String
  pub description : String
  pub version : String
  pub tags : List String

pub record CatalogStatus : Type 0 where
  pub phase : String
  pub conditions : List Condition
  pub last_sync_time : Option ℤ
  pub servers_discovered : ℤ
  pub observed_revision : String
  pub observed_generation : ℤ
  pub servers : List Listed
  pub errors : List String
  pub rate_limit_remaining : Option ℤ

pub record Catalog : Type 0 where
  pub name : String
  pub namespace : String
  pub generation : ℤ
  pub is_deleted : Bool
  pub spec : CatalogSpec
  pub status : CatalogStatus

pub record ServerFile : Type 0 where
  pub title : String
  pub description : String
  pub version : String
  pub keywords : List String

pub record RateLimit : Type 0 where
  pub remaining : ℤ
  pub reset_time : ℤ

-- The result of the GitHub client: the servers, and the files of those that have a valid one.
pub record SyncResult : Type 0 where
  pub servers : List ServerInfo
  pub server_specs : Dict ServerFile
  pub servers_count : ℤ
  pub observed_sha : String
  pub errors : List String
  pub rate_limit : Option RateLimit

-- The answer to an update of the status; a conflict comes with a new read of the registry.
pub data Sent : Type 0 where
  accepted : Sent
  conflict : Read Catalog → Sent
  refused : String → Sent

pub record Answers : Type 0 where
  pub now : ℤ
  -- By the number of the update in the reconciliation, and of the attempt, counted down.
  pub send : (update left : ℕ) → Catalog → Sent
  pub secret : (name namespace : String) → Read (Dict String)
  pub sync : (token : String) → Catalog → String ⊎ SyncResult
  pub apply_server : Catalog → ServerInfo → Option String
  pub apply_index : Catalog → (metadata : Dict String) → Option String
  pub show : ℤ → String
  pub show_time : ℤ → String

pub data Effect : Type 0 where
  status_stored : CatalogStatus → Effect
  warned : (reason message : String) → Effect
  noted : (reason message : String) → Effect
  server_cached : ServerInfo → Effect
  indexed : (metadata : Dict String) → Effect
  cleaned : (name namespace : String) → Effect

-- The result of a reconciliation; the time to the next one in nanoseconds, none if it is 0.
pub record Reconciled : Type 0 where
  pub effects : List Effect
  pub requeue_after : ℤ
  pub error : Option String

abbrev pub ends : List Effect → (requeue_after : ℤ) → Option String → Reconciled
ends effects requeue_after error = record {
  effects = effects;
  requeue_after = requeue_after;
  error = error;
}

abbrev pub minutes : ℕ → ℤ
minutes n = pos (n * 60_000_000_000)

-- `setCondition`.
unfoldable pub set_catalog_condition :
    (now : ℤ) → (kind status reason message : String) → Catalog → Catalog
unfolding put_condition
set_catalog_condition now kind status reason message c = record c {
  status = record (c.status) {
    conditions = put_condition (make_condition now kind status reason message) c.status.conditions;
  };
}

abbrev pub set_catalog_phase : (phase : String) → Catalog → Catalog
set_catalog_phase phase c = record c { status = record (c.status) { phase = phase } }
