-- ===== src/Cache/Commands.antt =====
-- pkg/services/cache_service.go: the service under any sequence of its methods, map by map.
use mcp_operator.Prelude.{String, ◌≡◌, refl, ap, ◌∙◌, List, [], ◌∷◌, arith, All, ℤ, ◌≤ℤ◌}
use mcp_operator.Cache.{
  find_live, CacheService, new_cache_service, get_registry, set_registry, invalidate_registry,
  get_mcp_server, set_mcp_server, invalidate_mcp_server, get_registry_servers, set_registry_servers,
  invalidate_registry_servers, clear_expired, clear_all, get_stats,
}
use mcp_operator.Cache.Entries.{count_expired-clear_expired_entries}
use mcp_operator.Cache.History.{
  Op, put, drop, sweep, wipe, idle, apply, after, promised, Past, find_live-after,
}

pub data Command (R S : Type 0) : Type 0 where
  read_registry : (key : String) → Command R S
  write_registry : (key : String) → R → (ttl : ℤ) → Command R S
  drop_registry : (key : String) → Command R S
  read_server : (key : String) → Command R S
  write_server : (key : String) → S → (ttl : ℤ) → Command R S
  drop_server : (key : String) → Command R S
  read_servers : (name : String) → Command R S
  write_servers : (name : String) → List S → (ttl : ℤ) → Command R S
  drop_servers : (name : String) → Command R S
  sweep_all : Command R S
  wipe_all : Command R S

module _ {R S : Type 0} where
  -- One call; the answers of the reading methods are thrown away.
  unfoldable pub step : ℤ → Command R S → CacheService R S → CacheService R S
  unfolding get_registry set_registry invalidate_registry get_mcp_server set_mcp_server
      invalidate_mcp_server get_registry_servers set_registry_servers invalidate_registry_servers
      clear_expired clear_all
  step now (read_registry key) c = (get_registry now key c).1
  step now (write_registry key r ttl) c = set_registry now key r ttl c
  step now (drop_registry key) c = invalidate_registry key c
  step now (read_server key) c = (get_mcp_server now key c).1
  step now (write_server key s ttl) c = set_mcp_server now key s ttl c
  step now (drop_server key) c = invalidate_mcp_server key c
  step now (read_servers name) c = (get_registry_servers now name c).1
  step now (write_servers name servers ttl) c = set_registry_servers now name servers ttl c
  step now (drop_servers name) c = invalidate_registry_servers name c
  step now sweep_all c = clear_expired now c
  step now wipe_all c = clear_all c

  -- The service after a history, the latest call first.
  unfoldable pub served : List (ℤ × Command R S) → CacheService R S
  unfolding new_cache_service step
  served [] = new_cache_service
  served ((t, command) ∷ history) = step t command (served history)

  abbrev pub on_registries : Command R S → Op R
  on_registries (write_registry key r ttl) = put key r ttl
  on_registries (drop_registry key) = drop key
  on_registries sweep_all = sweep
  on_registries wipe_all = wipe
  on_registries _ = idle

  abbrev pub on_mcp_servers : Command R S → Op S
  on_mcp_servers (write_server key s ttl) = put key s ttl
  on_mcp_servers (drop_server key) = drop key
  on_mcp_servers sweep_all = sweep
  on_mcp_servers wipe_all = wipe
  on_mcp_servers _ = idle

  abbrev pub on_registry_servers : Command R S → Op (List S)
  on_registry_servers (write_servers name servers ttl) = put name servers ttl
  on_registry_servers (drop_servers name) = drop name
  on_registry_servers sweep_all = sweep
  on_registry_servers wipe_all = wipe
  on_registry_servers _ = idle

  abbrev pub only : {A : Type 0} → (Command R S → Op A) → List (ℤ × Command R S) → List (ℤ × Op A)
  only f [] = []
  only f ((t, command) ∷ history) = (t, f command) ∷ only f history

  Past-only :
      {A : Type 0} (f : Command R S → Op A) (now : ℤ) (history : List (ℤ × Command R S))
      → All (λ x. x.0 ≤ℤ now) history
      → Past now (only f history)
  Past-only f now [] h = tt
  Past-only f now ((t, command) ∷ history) h = (h.0, Past-only f now history h.1)

  registries_step :
      (t : ℤ) (command : Command R S) (c : CacheService R S)
      → (step t command c).registry_cache ≡ apply t (on_registries command) c.registry_cache
  unfolding step apply
  registries_step t command c = ground arith

  servers_step :
      (t : ℤ) (command : Command R S) (c : CacheService R S)
      → (step t command c).mcp_server_cache ≡ apply t (on_mcp_servers command) c.mcp_server_cache
  unfolding step apply
  servers_step t command c = ground arith

  lists_step :
      (t : ℤ) (command : Command R S) (c : CacheService R S)
      → (step t command c).registry_servers_cache
        ≡ apply t (on_registry_servers command) c.registry_servers_cache
  unfolding step apply
  lists_step t command c = ground arith

  registries_served :
      (history : List (ℤ × Command R S))
      → (served history).registry_cache ≡ after (only on_registries history)
  unfolding served new_cache_service after
  registries_served [] = refl
  registries_served ((t, command) ∷ history) =
      registries_step t command (served history)
      ∙ ap (apply t (on_registries command)) (registries_served history)

  servers_served :
      (history : List (ℤ × Command R S))
      → (served history).mcp_server_cache ≡ after (only on_mcp_servers history)
  unfolding served new_cache_service after
  servers_served [] = refl
  servers_served ((t, command) ∷ history) =
      servers_step t command (served history)
      ∙ ap (apply t (on_mcp_servers command)) (servers_served history)

  lists_served :
      (history : List (ℤ × Command R S))
      → (served history).registry_servers_cache ≡ after (only on_registry_servers history)
  unfolding served new_cache_service after
  lists_served [] = refl
  lists_served ((t, command) ∷ history) =
      lists_step t command (served history)
      ∙ ap (apply t (on_registry_servers command)) (lists_served history)

  -- After any sequence of calls, a reading method at an instant that is not before any of them
  -- answers what its own kind was promised: the value of the latest write of the key, if nothing
  -- has invalidated it or cleared all since and its time to live is not over. Sweeps, reads and the
  -- other two kinds do not show.
  pub get-promised :
      (now : ℤ) (key : String) (history : List (ℤ × Command R S))
      → All (λ x. x.0 ≤ℤ now) history
      → ((get_registry now key (served history)).0 ≡ promised now key (only on_registries history))
        × ((get_mcp_server now key (served history)).0
            ≡ promised now key (only on_mcp_servers history))
        × ((get_registry_servers now key (served history)).0
            ≡ promised now key (only on_registry_servers history))
  unfolding get_registry get_mcp_server get_registry_servers
  get-promised now key history h = (
    ap (find_live now key) (registries_served history)
        ∙ find_live-after now key (only on_registries history)
            (Past-only on_registries now history h),
    ap (find_live now key) (servers_served history)
        ∙ find_live-after now key (only on_mcp_servers history)
            (Past-only on_mcp_servers now history h),
    ap (find_live now key) (lists_served history)
        ∙ find_live-after now key (only on_registry_servers history)
            (Past-only on_registry_servers now history h),
  )

-- Right after `ClearExpired` no entry counts as expired.
pub get_stats-clear_expired :
    {R S : Type 0} (now : ℤ) (c : CacheService R S)
    → (get_stats now (clear_expired now c)).expired_entries ≡ 0
unfolding get_stats clear_expired
get_stats-clear_expired now c = omega (
  arith,
  count_expired-clear_expired_entries now c.registry_cache,
  count_expired-clear_expired_entries now c.mcp_server_cache,
  count_expired-clear_expired_entries now c.registry_servers_cache,
)
