-- ===== src/RegistryCache.antt =====
-- pkg/registry/cache/cache_manager.go. Names are lists of runes. The ConfigMaps of one namespace
-- are a list, of which the code reads the name and two labels. What the marshaller, the owner
-- reference and the API server answer are parameters.
pub mod Names
pub mod Cleanup
mod Tests
use mcp_operator.Prelude.{
  ℕ, zero, suc, String, ◌⊎◌, inl, inr, Bool, true, false, ◌&&◌, ◌||◌, not, Option, none, some, List,
  [], ◌∷◌, ◌++◌, map, ltb, leb, eqb, if◌then◌else◌, length, runes, to_lower, concat,
}

-- `[a-z0-9\-\.]`.
unfoldable pub is_allowed : ℕ → Bool
is_allowed r = (leb b'a' r && leb r b'z') || (leb b'0' r && leb r b'9') || eqb r b'-' || eqb r b'.'

-- The three replacements, on a rune in lower case.
unfoldable pub replaced : ℕ → ℕ
unfolding is_allowed
replaced l =
    if eqb l b'_' then b'-' else if eqb l b' ' then b'-' else if is_allowed l then l else b'-'

-- What the first four lines make of a rune.
unfoldable pub sanitize : ℕ → ℕ
unfolding replaced to_lower
sanitize r = replaced (to_lower r)

-- The cutset of `strings.Trim(s, "-.")`.
abbrev pub is_trimmed : ℕ → Bool
is_trimmed r = eqb r b'-' || eqb r b'.'

abbrev pub trim_left : List ℕ → List ℕ
trim_left [] = []
trim_left (r ∷ rs) = let later = trim_left rs in if is_trimmed r then later else r ∷ rs

-- A text without its end of trimmed runes.
abbrev pub attach : ℕ → List ℕ → List ℕ
attach r [] = if is_trimmed r then [] else r ∷ []
attach r (s ∷ ss) = r ∷ s ∷ ss

-- A text without its end of trimmed runes.
abbrev pub trim_right : List ℕ → List ℕ
trim_right [] = []
trim_right (r ∷ rs) = attach r (trim_right rs)

unfoldable pub take : ℕ → List ℕ → List ℕ
take zero rs = []
take (suc n) [] = []
take (suc n) (r ∷ rs) = r ∷ take n rs

abbrev pub or_server : List ℕ → List ℕ
or_server [] = runes "server"
or_server (r ∷ rs) = r ∷ rs

unfoldable pub dns1123_name : List ℕ → List ℕ
unfolding sanitize take
dns1123_name s =
    let trimmed = or_server (trim_right (trim_left (map sanitize s))) in
    if ltb 253 (length trimmed) then take 253 trimmed else trimmed

abbrev pub same_runes : List ℕ → List ℕ → Bool
same_runes [] [] = true
same_runes [] (s ∷ ss) = false
same_runes (r ∷ rs) [] = false
same_runes (r ∷ rs) (s ∷ ss) = if eqb r s then same_runes rs ss else false

-- The labels are mcp.allbeone.io/registry and mcp.allbeone.io/server.
pub record ConfigMap : Type 0 where
  pub name : List ℕ
  pub registry : List ℕ
  pub server : Option (List ℕ)
  pub content : String

abbrev pub config_map_name : (registry last : List ℕ) → List ℕ
config_map_name registry last = runes "mcpregistry-" ++ registry ++ runes "-" ++ last

-- A server-side apply with forced ownership: the ConfigMap of the name is created or replaced.
unfoldable pub apply_config_map : ConfigMap → List ConfigMap → List ConfigMap
apply_config_map m [] = m ∷ []
apply_config_map m (old ∷ store) =
    let rest = apply_config_map m store in
    if same_runes old.name m.name then m ∷ store else old ∷ rest

abbrev pub server_map : (registry orig : List ℕ) → (content : String) → ConfigMap
server_map registry orig content = record {
  name = config_map_name registry (dns1123_name orig);
  registry = registry;
  server = some (dns1123_name orig);
  content = content;
}

-- What an apply is told: the marshalled content, and the errors of the owner reference and the
-- patch.
pub record Answers : Type 0 where
  pub marshalled : String ⊎ String
  pub owner_error : Option String
  pub patch_error : Option String

-- The ConfigMaps after a call, and its error.
abbrev pub Outcome : Type 0
Outcome = List ConfigMap × Option String

-- The end of `CacheServer` and of `CacheIndex`.
unfoldable pub send_map : Answers → ConfigMap → List ConfigMap → Outcome
unfolding apply_config_map
send_map answers m store = elim answers.owner_error [
  | some err ↦ (store, some (concat ("failed to set controller reference: " ∷ err ∷ [])))
  | none ↦ elim answers.patch_error [
    | some err ↦ (store, some (concat ("failed to apply ConfigMap: " ∷ err ∷ [])))
    | none ↦ (apply_config_map m store, none)
  ]
]

unfoldable pub cache_server : Answers → (registry orig : List ℕ) → List ConfigMap → Outcome
unfolding send_map
cache_server answers registry orig store = elim answers.marshalled [
  | inl err ↦ (store, some (concat ("failed to marshal server spec: " ∷ err ∷ [])))
  | inr content ↦ send_map answers (server_map registry orig content) store
]

abbrev pub index_map : (registry : List ℕ) → (content : String) → ConfigMap
index_map registry content = record {
  name = config_map_name registry (runes "index");
  registry = registry;
  server = none;
  content = content;
}

unfoldable pub cache_index : Answers → (registry : List ℕ) → List ConfigMap → Outcome
unfolding send_map
cache_index answers registry store = elim answers.marshalled [
  | inl err ↦ (store, some (concat ("failed to marshal registry index: " ∷ err ∷ [])))
  | inr content ↦ send_map answers (index_map registry content) store
]

abbrev pub is_active : List (List ℕ) → List ℕ → Bool
is_active [] server = false
is_active (s ∷ active) server = same_runes s server || is_active active server

-- The test that orders the deletion of a ConfigMap.
abbrev pub is_orphan : (registry : List ℕ) → (active : List (List ℕ)) → ConfigMap → Bool
is_orphan registry active m = elim m.server [
  | none ↦ false
  | some server ↦ same_runes m.registry registry && not (is_active active server)
]

-- The ConfigMaps that the calls of `Delete` leave; `refuses` are those whose deletion fails, which
-- is only logged.
abbrev pub delete_all : (chosen refuses : ConfigMap → Bool) → List ConfigMap → List ConfigMap
delete_all chosen refuses [] = []
delete_all chosen refuses (m ∷ store) =
    let rest = delete_all chosen refuses store in
    if chosen m && not (refuses m) then rest else m ∷ rest

-- `list_error` is the error of `List`, if it fails.
unfoldable pub cleanup_orphaned_config_maps :
    (list_error : Option String)
    → (registry : List ℕ) → (active : List (List ℕ)) → (refuses : ConfigMap → Bool) → List ConfigMap
    → Outcome
cleanup_orphaned_config_maps (some err) registry active refuses store =
    (store, some (concat ("failed to list ConfigMaps: " ∷ err ∷ [])))
cleanup_orphaned_config_maps none registry active refuses store =
    (delete_all (is_orphan registry active) refuses store, none)

-- `shown` is the name of the registry in the message.
unfoldable pub cleanup_registry :
    (list_error : Option String)
    → (shown : String) → (registry : List ℕ) → (refuses : ConfigMap → Bool) → List ConfigMap
    → Outcome
cleanup_registry (some err) shown registry refuses store =
    (store, some (concat ("failed to list ConfigMaps for registry " ∷ shown ∷ ": " ∷ err ∷ [])))
cleanup_registry none shown registry refuses store =
    (delete_all (λ m. same_runes m.registry registry) refuses store, none)

-- The loop of `ListCachedServers`.
unfoldable pub cached_names : (registry : List ℕ) → List ConfigMap → List (List ℕ)
cached_names registry [] = []
cached_names registry (m ∷ store) =
    let rest = cached_names registry store in
    elim m.server [
      | none ↦ rest
      | some server ↦ if same_runes m.registry registry then server ∷ rest else rest
    ]

unfoldable pub list_cached_servers :
    (list_error : Option String) → (registry : List ℕ) → List ConfigMap → String ⊎ List (List ℕ)
unfolding cached_names
list_cached_servers (some err) registry store =
    inl (concat ("failed to list ConfigMaps: " ∷ err ∷ []))
list_cached_servers none registry store = inr (cached_names registry store)
