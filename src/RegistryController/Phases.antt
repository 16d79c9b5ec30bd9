-- ===== src/RegistryController/Phases.antt =====
-- controllers/mcpregistry_controller.go: the phase that a reconciliation leaves.
use mcp_operator.Prelude.{
  ℕ, String, ◌≡◌, refl, sym, ap, ◌∙◌, subst, ◌⊎◌, inl, inr, Bool, true, false, Option, none, some,
  List, [], ◌∷◌, ◌++◌, if◌then◌else◌, Bool-cases, ℤ, pos, ltb_ℤ,
}
use mcp_operator.RegistryService.{found}
use mcp_operator.RegistryController.{
  CatalogStatus, Catalog, RateLimit, SyncResult, accepted, Answers, Effect, status_stored, warned,
  noted, server_cached, indexed, cleaned, Reconciled, ends, minutes, set_catalog_condition,
}
use mcp_operator.RegistryController.Update.{
  update_status_from, update_status_with_retry, get_auth_token,
}
use mcp_operator.RegistryController.Sync.{
  has_valid_config, send_status, report_failure, invalid_message, without_config, report_invalid,
  without_token, report_no_token, without_sync, report_no_sync, with_rate_limit, finish_sync,
  sync_effects, synced, store_sync, after_sync, after_token, after_start, with_start, start_sync,
  reconcile_registry,
}

-- The phase that the API server has after the effects, from the one before them.
abbrev pub phase_after : (old : String) → List Effect → String
phase_after old [] = old
phase_after old (status_stored s ∷ es) = phase_after s.phase es
phase_after old (warned reason message ∷ es) = phase_after old es
phase_after old (noted reason message ∷ es) = phase_after old es
phase_after old (server_cached s ∷ es) = phase_after old es
phase_after old (indexed metadata ∷ es) = phase_after old es
phase_after old (cleaned name namespace ∷ es) = phase_after old es

phase_after-append :
    (old : String) (es fs : List Effect)
    → phase_after old (es ++ fs) ≡ phase_after (phase_after old es) fs
phase_after-append old [] fs = refl
phase_after-append old (status_stored s ∷ es) fs = phase_after-append s.phase es fs
phase_after-append old (warned reason message ∷ es) fs = phase_after-append old es fs
phase_after-append old (noted reason message ∷ es) fs = phase_after-append old es fs
phase_after-append old (server_cached s ∷ es) fs = phase_after-append old es fs
phase_after-append old (indexed metadata ∷ es) fs = phase_after-append old es fs
phase_after-append old (cleaned name namespace ∷ es) fs = phase_after-append old es fs

phase_after-status_stored :
    (old : String) (es : List Effect) (s : CatalogStatus)
    → phase_after old (es ++ status_stored s ∷ []) ≡ s.phase
phase_after-status_stored old es s = phase_after-append old es (status_stored s ∷ [])

module _ {A : Type 0} (a b : Bool) (x y z : A) where
  second : a ≡ false → b ≡ true → (if a then x else if b then y else z) ≡ y
  second h k = rw (h, k) refl

  third : a ≡ false → b ≡ false → (if a then x else if b then y else z) ≡ z
  third h k = rw (h, k) refl

module _ (answers : Answers) where
  phase-with_rate_limit :
      (l : Option RateLimit) (c : Catalog)
      → (with_rate_limit answers l c).0.status.phase ≡ c.status.phase
  unfolding set_catalog_condition
  phase-with_rate_limit none c = refl
  phase-with_rate_limit (some l) c = elim (Bool-cases (ltb_ℤ l.remaining (pos 100))) [
    | inl low ↦ rw low refl
    | inr enough ↦ rw enough refl
  ]

  phase-synced : (r : SyncResult) (c : Catalog) → (synced answers r c).status.phase ≡ "Ready"
  unfolding synced set_catalog_condition
  phase-synced r c = phase-with_rate_limit r.rate_limit _

  -- The phase that is to be stored in the end.
  abbrev pub promised_by_sync : String ⊎ SyncResult → String
  promised_by_sync (inl err) = "Failed"
  promised_by_sync (inr r) = "Ready"

  abbrev pub promised_by_token : Catalog → String ⊎ String → String
  promised_by_token c (inl err) = "Syncing"
  promised_by_token c (inr token) = promised_by_sync (answers.sync token c)

  abbrev pub promised_phase : Catalog → String
  promised_phase c =
      if has_valid_config c.spec
      then promised_by_token (with_start answers c) (get_auth_token answers (with_start answers c))
      else c.status.phase

  module _ (accepts : (update : ℕ) (c : Catalog) → answers.send update 4 c ≡ accepted) where
    send_status_stores :
        (update : ℕ) (c : Catalog)
        → send_status answers update c ≡ (status_stored c.status ∷ [], c, none)
    unfolding update_status_with_retry update_status_from
    send_status_stores update c = rw (accepts update c) refl

    phase-report_failure :
        (old : String) (update : ℕ) (effects : List Effect) (reason err : String) (after : ℤ)
        (c : Catalog)
        → phase_after old (report_failure answers update effects reason err after c).effects
          ≡ c.status.phase
    phase-report_failure old update effects reason err after c =
        subst (λ o. phase_after old (effects ++ (warned reason err ∷ o.0)) ≡ c.status.phase)
          (sym (send_status_stores update c))
          (phase_after-append old effects (warned reason err ∷ status_stored c.status ∷ []))

    phase-store_sync :
        (old : String) (effects : List Effect) (r : SyncResult) (c : Catalog)
        → phase_after old (store_sync answers effects r c).effects ≡ "Ready"
    unfolding store_sync
    phase-store_sync old effects r c =
        let before = effects ++ sync_effects answers r c in
        let delay = (with_rate_limit answers r.rate_limit c).2 in
        subst (λ o. phase_after old (finish_sync answers before delay o).effects ≡ "Ready")
          (sym (send_status_stores 1 (synced answers r c)))
          (phase_after-status_stored old before (synced answers r c).status ∙ phase-synced r c)

    phase-after_sync :
        (old : String) (effects : List Effect) (c : Catalog) (result : String ⊎ SyncResult)
        → phase_after old (after_sync answers effects c result).effects ≡ promised_by_sync result
    unfolding after_sync report_no_sync set_catalog_condition
    phase-after_sync old effects c (inl err) =
        phase-report_failure old 1 effects "SyncFailed" err (minutes 15)
          (without_sync answers err c)
    phase-after_sync old effects c (inr r) = phase-store_sync old effects r c

    phase-after_token :
        (old : String) (effects : List Effect) (c : Catalog) (token : String ⊎ String)
        → c.status.phase ≡ "Syncing"
        → phase_after old (after_token answers effects c token).effects ≡ promised_by_token c token
    unfolding after_token report_no_token set_catalog_condition
    phase-after_token old effects c (inl err) h =
        phase-report_failure old 1 effects "AuthFailed" err (minutes 5)
          (without_token answers err c)
        ∙ h
    phase-after_token old effects c (inr token) h =
        phase-after_sync old effects c (answers.sync token c)

    phase-start_sync :
        (old : String) (c : Catalog)
        → phase_after old (start_sync answers c).effects
          ≡ promised_by_token (with_start answers c) (get_auth_token answers (with_start answers c))
    unfolding start_sync after_start set_catalog_condition
    phase-start_sync old c =
        let begun = with_start answers c in
        subst
          (λ o.
            phase_after old (after_start answers o).effects
            ≡ promised_by_token begun (get_auth_token answers begun))
          (sym (send_status_stores 0 begun))
          (phase-after_token old (status_stored begun.status ∷ []) begun
            (get_auth_token answers begun) refl)

    phase-report_invalid :
        (old : String) (c : Catalog)
        → phase_after old (report_invalid answers c).effects ≡ c.status.phase
    unfolding report_invalid set_catalog_condition
    phase-report_invalid old c =
        phase-report_failure old 0 [] "ValidationFailed" (invalid_message answers) (minutes 5)
          (without_config answers c)

    -- A registry that is not being deleted, where the API server accepts every update at once: the
    -- stored phase stays as it was if neither a URL nor a GitHub source is given. Else it is Ready
    -- if the sync succeeds, Failed if it fails, and Syncing if there is no token although one is
    -- asked for.
    pub phase_after-reconcile_registry :
        (c : Catalog)
        → c.is_deleted ≡ false
        → phase_after c.status.phase (reconcile_registry answers (found c)).effects
          ≡ promised_phase c
    unfolding reconcile_registry
    phase_after-reconcile_registry c live =
        let valid = has_valid_config c.spec in
        let gone = ends (cleaned c.name c.namespace ∷ []) (pos 0) none in
        let begun =
          promised_by_token (with_start answers c)
            (get_auth_token answers (with_start answers c)) in
        let phase : Reconciled → String = λ r. phase_after c.status.phase r.effects in
        elim (Bool-cases valid) [
          | inl given ↦
              ap phase (
                second c.is_deleted valid gone (start_sync answers c) (report_invalid answers c)
                  live given)
              ∙ (phase-start_sync c.status.phase c
                  ∙ sym (second false valid begun begun c.status.phase refl given))
          | inr missing ↦
              ap phase (
                third c.is_deleted valid gone (start_sync answers c) (report_invalid answers c) live
                  missing)
              ∙ (phase-report_invalid c.status.phase c
                  ∙ sym (third false valid begun begun c.status.phase refl missing))
        ]
