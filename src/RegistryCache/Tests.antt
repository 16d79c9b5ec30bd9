-- ===== src/RegistryCache/Tests.antt =====
-- Concrete names and a concrete clean-up, and the theorems at them.
use mcp_operator.Prelude.{String, ◌≡◌, refl, inr, false, none, List, [], ◌∷◌, runes}
use mcp_operator.RegistryCache.{
  dns1123_name, ConfigMap, Answers, cache_server, cleanup_orphaned_config_maps, cached_names,
  list_cached_servers,
}
use mcp_operator.RegistryCache.Cleanup.{nobody, listed, listed-cleanup-cache_server}

cache_code : Unit {0}
unfolding dns1123_name cache_server cleanup_orphaned_config_maps list_cached_servers cached_names
    listed
cache_code = tt

safe_name : dns1123_name (runes "_My Server.") ≡ runes "my-server"
unfolding cache_code
safe_name = refl

abbrev accepts : (content : String) → Answers
accepts content = record { marshalled = inr content; owner_error = none; patch_error = none }

abbrev two_servers : List ConfigMap
unfolding cache_code
two_servers =
    (cache_server (accepts "a") (runes "main") (runes "My_Server")
      (cache_server (accepts "b") (runes "main") (runes "git") []).0).0

-- The server My_Server is deleted although it is active.
listed-cleanup-cache_server_example :
    listed
      (runes "main")
      (dns1123_name (runes "My_Server"))
      (cleanup_orphaned_config_maps none
        (runes "main")
        (runes "My_Server" ∷ [])
        nobody
        (cache_server (accepts "a") (runes "main") (runes "My_Server") []).0).0
    ≡ false
unfolding cache_code
listed-cleanup-cache_server_example =
    listed-cleanup-cache_server (accepts "a") (runes "main") (runes "My_Server") [] refl
