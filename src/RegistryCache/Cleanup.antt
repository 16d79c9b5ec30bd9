-- ===== src/RegistryCache/Cleanup.antt =====
-- pkg/registry/cache/cache_manager.go: the clean-up of orphans against the servers that are cached.
use mcp_operator.Prelude.{
  ℕ, String, ◌≡◌, refl, sym, ap, ◌∙◌, subst, ◌⊎◌, inl, inr, Bool, true, false, ◌&&◌, ◌||◌, none,
  some, List, [], ◌∷◌, arith, eqb→eq, Option-cases,
}
use mcp_operator.RegistryCache.{
  dns1123_name, same_runes, ConfigMap, apply_config_map, server_map, Answers, send_map,
  cache_server, is_active, cleanup_orphaned_config_maps, cached_names, list_cached_servers,
}

same_runes_refl : (rs : List ℕ) → same_runes rs rs ≡ true
same_runes_refl [] = refl
same_runes_refl (r ∷ rs) = ground (arith, same_runes_refl rs)

same_runes_sound : (rs ss : List ℕ) → same_runes rs ss ≡ true → rs ≡ ss
same_runes_sound [] [] h = refl
same_runes_sound [] (s ∷ ss) h = ground arith
same_runes_sound (r ∷ rs) [] h = ground arith
same_runes_sound (r ∷ rs) (s ∷ ss) h = ground (arith, same_runes_sound rs ss, eqb→eq r s)

-- A clean-up all of whose deletions are done.
abbrev pub nobody : ConfigMap → Bool
nobody m = false

-- The server is among those that the registry lists, where the listing does not fail.
unfoldable pub listed : (registry server : List ℕ) → List ConfigMap → Bool
unfolding list_cached_servers
listed registry server store = elim (list_cached_servers none registry store) [
  | inl err ↦ false
  | inr servers ↦ is_active servers server
]

listed-apply :
    (m : ConfigMap) (server : List ℕ) (store : List ConfigMap)
    → m.server ≡ some server
    → listed m.registry server (apply_config_map m store) ≡ true
unfolding listed list_cached_servers cached_names apply_config_map
listed-apply m server [] h = ground (arith, same_runes_refl server, same_runes_refl m.registry)
listed-apply m server (old ∷ store) h =
    ground
      (arith, same_runes_refl server, same_runes_refl m.registry, listed-apply m server store h)

same_active :
    (active : List (List ℕ)) (s server : List ℕ)
    → same_runes s server ≡ true
    → is_active active s ≡ is_active active server
same_active active s server h = ap (is_active active) (same_runes_sound s server h)

-- After a clean-up all of whose deletions are done, a registry lists exactly the servers that it
-- listed before and that are active.
pub listed-cleanup :
    (registry : List ℕ) (active : List (List ℕ)) (server : List ℕ) (store : List ConfigMap)
    → listed registry server (cleanup_orphaned_config_maps none registry active nobody store).0
      ≡ (listed registry server store && is_active active server)
unfolding listed list_cached_servers cached_names cleanup_orphaned_config_maps
listed-cleanup registry active server [] = refl
listed-cleanup registry active server (m ∷ store) = elim (Option-cases m.server) [
  | inl unlabelled ↦ ground (arith, listed-cleanup registry active server store)
  | inr labelled ↦ ground (
    arith,
    labelled.1,
    same_active active labelled.0 server,
    listed-cleanup registry active server store,
  )
]

differs_too :
    (a registry other : List ℕ)
    → same_runes a registry ≡ true
    → same_runes registry other ≡ false
    → same_runes a other ≡ false
differs_too a registry other h k =
    subst (λ x. same_runes x other ≡ false) (sym (same_runes_sound a registry h)) k

-- A clean-up of one registry changes nothing in what another one lists.
pub listed-cleanup_other :
    (registry other : List ℕ) (active : List (List ℕ)) (server : List ℕ) (store : List ConfigMap)
    → same_runes registry other ≡ false
    → listed other server (cleanup_orphaned_config_maps none registry active nobody store).0
      ≡ listed other server store
unfolding listed list_cached_servers cached_names cleanup_orphaned_config_maps
listed-cleanup_other registry other active server [] h = refl
listed-cleanup_other registry other active server (m ∷ store) h = elim (Option-cases m.server) [
  | inl unlabelled ↦ ground (arith, listed-cleanup_other registry other active server store)
  | inr labelled ↦ ground (
    arith,
    labelled.1,
    differs_too m.registry registry other,
    listed-cleanup_other registry other active server store,
  )
]

send_map-sent :
    (answers : Answers) (m : ConfigMap) (store : List ConfigMap)
    → (send_map answers m store).1 ≡ none
    → (send_map answers m store).0 ≡ apply_config_map m store
unfolding send_map
send_map-sent answers m store h = ground arith

listed-marshalled :
    (answers : Answers) (registry orig : List ℕ) (store : List ConfigMap) (found : String ⊎ String)
    → answers.marshalled ≡ found
    → (cache_server answers registry orig store).1 ≡ none
    → listed registry (dns1123_name orig) (cache_server answers registry orig store).0 ≡ true
unfolding cache_server
listed-marshalled answers registry orig store (inl err) e h = absurd (ground (arith, e, h))
listed-marshalled answers registry orig store (inr content) e h =
    let m = server_map registry orig content in
    rw (e, send_map-sent answers m store (ground (arith, e, h)))
      (listed-apply m (dns1123_name orig) store refl)

-- A server that is cached without an error is listed.
cache_server-listed :
    (answers : Answers) (registry orig : List ℕ) (store : List ConfigMap)
    → (cache_server answers registry orig store).1 ≡ none
    → listed registry (dns1123_name orig) (cache_server answers registry orig store).0 ≡ true
cache_server-listed answers registry orig store h =
    listed-marshalled answers registry orig store answers.marshalled refl h

or_false : (b : Bool) → (b || false) ≡ b
or_false true = refl
or_false false = refl

-- A server that is cached without an error and then cleaned up after, with its own name as the only
-- active one, where neither listing nor deleting fails, is still listed exactly if its name is its
-- safe name: the label holds the safe name, the active names are compared as they are.
pub listed-cleanup-cache_server :
    (answers : Answers) (registry orig : List ℕ) (store : List ConfigMap)
    → (cache_server answers registry orig store).1 ≡ none
    → listed registry
        (dns1123_name orig)
        (cleanup_orphaned_config_maps none registry
          (orig ∷ [])
          nobody
          (cache_server answers registry orig store).0).0
      ≡ same_runes orig (dns1123_name orig)
listed-cleanup-cache_server answers registry orig store h =
    listed-cleanup registry (orig ∷ []) (dns1123_name orig)
      (cache_server answers registry orig store).0
    ∙ ap (λ b. b && (same_runes orig (dns1123_name orig) || false))
        (cache_server-listed answers registry orig store h)
    ∙ or_false (same_runes orig (dns1123_name orig))
