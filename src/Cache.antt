-- ===== src/Cache.antt =====
-- pkg/services/cache_service.go. The mutex makes each method one step; deep copies make stored
-- values independent of their callers, so that they are values here. The clock is an argument.
pub mod Entries
pub mod History
pub mod Commands
mod Tests
use mcp_operator.Prelude.{
  ℕ, ◌+◌, String, Bool, Option, none, some, List, [], ◌∷◌, if◌then◌else◌, is_some, length, ℤ, pos,
  ◌+ℤ◌, ltb_ℤ, wrap_signed, Dict, lookup, insert, remove,
}

pub record CacheEntry (A : Type 0) : Type 0 where
  pub data_of : A
  pub expires_at : ℤ

module _ {A : Type 0} where
  -- `IsExpired`.
  abbrev pub is_expired : (now : ℤ) → CacheEntry A → Bool
  is_expired now e = ltb_ℤ e.expires_at now

  abbrev pub live : (now : ℤ) → Option (CacheEntry A) → Option A
  live now none = none
  live now (some e) = if is_expired now e then none else some e.data_of

  -- What a `Get` method finds in its map.
  unfoldable pub find_live : (now : ℤ) → String → Dict (CacheEntry A) → Option A
  find_live now key m = live now (lookup key m)

  -- What a `Set` method writes.
  abbrev pub make_entry : (now : ℤ) → A → (ttl : ℤ) → CacheEntry A
  make_entry now a ttl = record { data_of = a; expires_at = now +ℤ ttl }

  -- One loop of `ClearExpired`.
  unfoldable pub clear_expired_entries : (now : ℤ) → Dict (CacheEntry A) → Dict (CacheEntry A)
  clear_expired_entries now [] = []
  clear_expired_entries now ((key, e) ∷ m) =
      let rest = clear_expired_entries now m in
      if is_expired now e then remove key rest else (key, e) ∷ rest

  abbrev pub count_expired : (now : ℤ) → Dict (CacheEntry A) → ℕ
  count_expired now [] = 0
  count_expired now ((key, e) ∷ m) =
      if is_expired now e then count_expired now m + 1 else count_expired now m

pub record CacheStats : Type 0 where
  pub registry_hits : ℤ
  pub registry_misses : ℤ
  pub mcp_server_hits : ℤ
  pub mcp_server_misses : ℤ
  pub registry_servers_hits : ℤ
  pub registry_servers_misses : ℤ
  pub total_entries : ℕ
  pub expired_entries : ℕ

-- A counter of 64 bits.
abbrev bump : ℤ → ℤ
bump n = wrap_signed 64 (n +ℤ pos 1)

-- `R` and `S` are the registries and the servers.
pub record CacheService (R S : Type 0) : Type 0 where
  pub registry_cache : Dict (CacheEntry R)
  pub mcp_server_cache : Dict (CacheEntry S)
  pub registry_servers_cache : Dict (CacheEntry (List S))
  pub stats : CacheStats

module _ {R S : Type 0} where
  unfoldable pub new_cache_service : CacheService R S
  new_cache_service = record {
    registry_cache = [];
    mcp_server_cache = [];
    registry_servers_cache = [];
    stats = record {
      registry_hits = pos 0;
      registry_misses = pos 0;
      mcp_server_hits = pos 0;
      mcp_server_misses = pos 0;
      registry_servers_hits = pos 0;
      registry_servers_misses = pos 0;
      total_entries = 0;
      expired_entries = 0;
    };
  }

  -- The entry, and the service with its counters.
  unfoldable pub get_registry : (now : ℤ) → String → CacheService R S → Option R × CacheService R S
  unfolding find_live
  get_registry now key c = (
    found,
    record c {
      stats =
          if is_some found
          then record st { registry_hits = bump st.registry_hits }
          else record st { registry_misses = bump st.registry_misses };
    },
  )
    where
      found : Option R
      found = find_live now key c.registry_cache

      st : CacheStats
      st = c.stats

  unfoldable pub set_registry :
      (now : ℤ) → String → R → (ttl : ℤ) → CacheService R S → CacheService R S
  set_registry now key r ttl c = record c {
    registry_cache = insert key (make_entry now r ttl) c.registry_cache;
  }

  unfoldable pub invalidate_registry : String → CacheService R S → CacheService R S
  invalidate_registry key c = record c { registry_cache = remove key c.registry_cache }

  unfoldable pub get_mcp_server :
      (now : ℤ) → String → CacheService R S → Option S × CacheService R S
  unfolding find_live
  get_mcp_server now key c = (
    found,
    record c {
      stats =
          if is_some found
          then record st { mcp_server_hits = bump st.mcp_server_hits }
          else record st { mcp_server_misses = bump st.mcp_server_misses };
    },
  )
    where
      found : Option S
      found = find_live now key c.mcp_server_cache

      st : CacheStats
      st = c.stats

  unfoldable pub set_mcp_server :
      (now : ℤ) → String → S → (ttl : ℤ) → CacheService R S → CacheService R S
  set_mcp_server now key s ttl c = record c {
    mcp_server_cache = insert key (make_entry now s ttl) c.mcp_server_cache;
  }

  unfoldable pub invalidate_mcp_server : String → CacheService R S → CacheService R S
  invalidate_mcp_server key c = record c { mcp_server_cache = remove key c.mcp_server_cache }

  unfoldable pub get_registry_servers :
      (now : ℤ) → String → CacheService R S → Option (List S) × CacheService R S
  unfolding find_live
  get_registry_servers now name c = (
    found,
    record c {
      stats =
          if is_some found
          then record st { registry_servers_hits = bump st.registry_servers_hits }
          else record st { registry_servers_misses = bump st.registry_servers_misses };
    },
  )
    where
      found : Option (List S)
      found = find_live now name c.registry_servers_cache

      st : CacheStats
      st = c.stats

  unfoldable pub set_registry_servers :
      (now : ℤ) → String → List S → (ttl : ℤ) → CacheService R S → CacheService R S
  set_registry_servers now name servers ttl c = record c {
    registry_servers_cache = insert name (make_entry now servers ttl) c.registry_servers_cache;
  }

  unfoldable pub invalidate_registry_servers : String → CacheService R S → CacheService R S
  invalidate_registry_servers name c = record c {
    registry_servers_cache = remove name c.registry_servers_cache;
  }

  unfoldable pub clear_expired : (now : ℤ) → CacheService R S → CacheService R S
  unfolding clear_expired_entries
  clear_expired now c = record c {
    registry_cache = clear_expired_entries now c.registry_cache;
    mcp_server_cache = clear_expired_entries now c.mcp_server_cache;
    registry_servers_cache = clear_expired_entries now c.registry_servers_cache;
  }

  unfoldable pub clear_all : CacheService R S → CacheService R S
  clear_all c = record c { registry_cache = []; mcp_server_cache = []; registry_servers_cache = [] }

  unfoldable pub get_stats : (now : ℤ) → CacheService R S → CacheStats
  get_stats now c = record st {
    total_entries =
        length c.registry_cache + length c.mcp_server_cache + length c.registry_servers_cache;
    expired_entries =
        count_expired now c.registry_cache
        + count_expired now c.mcp_server_cache
        + count_expired now c.registry_servers_cache;
  }
    where
      st : CacheStats
      st = c.stats
