-- ===== src/AutoUpdate/Passes.antt =====
-- pkg/services/auto_update_service.go: the counts, the tracker and the calls of a pass over the
-- servers.
use mcp_operator.Prelude.{
  ◌+◌, ◌≤◌, String, eq_iff, ◌≡◌, ◌∙◌, ◌≢◌, ◌⊎◌, inl, inr, Bool, true, false, ◌||◌, Option, some,
  List, [], ◌∷◌, arith, if◌then◌else◌, Option-cases, length, All, ℤ, Dict, lookup, lookup-remove,
}
use mcp_operator.Api.{McpServer}
use mcp_operator.AutoUpdate.{UpdateFailureInfo, is_in_backoff_period, record_success}
use mcp_operator.AutoUpdate.Backoff.{lookup-record_failure}
use mcp_operator.AutoUpdate.Template.{
  Template, Outcome, panicked, failed, returned, is_update_required,
}
use mcp_operator.AutoUpdate.Update.{Updated, update_server_from_template}
use mcp_operator.AutoUpdate.Check.{
  Pass, server_key, unregistered, record_update, act, check_server, check_servers,
  check_for_updates,
}

module _ {Q : Type 0} (fetch : String → String → String ⊎ Template)
    (api status_api : McpServer Q → Option String) (now : ℤ) where
  record_update-counts :
      (o : Outcome (Updated Q)) (key : String) (p q : Pass Q)
      → record_update fetch api status_api now o key p ≡ some q
      → q.updated_count + q.error_count ≤ p.updated_count + p.error_count + 1
  unfolding record_update
  record_update-counts panicked key p q h = absurd (ground arith)
  record_update-counts (failed err) key p q h = absurd (ground arith)
  record_update-counts (returned r) key p q h = ground arith

  act-counts :
      (o : Outcome (Bool × Option Template)) (s : McpServer Q) (p q : Pass Q)
      → act fetch api status_api now o s p ≡ some q
      → q.updated_count + q.error_count ≤ p.updated_count + p.error_count + 1
  unfolding act
  act-counts panicked s p q h = absurd (ground arith)
  act-counts (failed err) s p q h = ground arith
  act-counts (returned (false, t)) s p q h = ground arith
  act-counts (returned (true, t)) s p q h = ground (
    arith,
    record_update-counts (update_server_from_template fetch api status_api now s) (server_key s) p
        q,
  )

  check_server-counts :
      (s : McpServer Q) (p q : Pass Q)
      → check_server fetch api status_api now s p ≡ some q
      → q.updated_count + q.error_count ≤ p.updated_count + p.error_count + 1
  unfolding check_server
  check_server-counts s p q h = ground (arith, act-counts (is_update_required fetch s) s p q)

  record_update-other :
      (o : Outcome (Updated Q)) (key other : String) (p q : Pass Q)
      → key ≢ other
      → record_update fetch api status_api now o key p ≡ some q
      → lookup other q.tracker ≡ lookup other p.tracker
  unfolding record_update record_success
  record_update-other panicked key other p q k h = absurd (ground arith)
  record_update-other (failed err) key other p q k h = absurd (ground arith)
  record_update-other (returned r) key other p q k h = ground (
    arith,
    eq_iff key other,
    lookup-record_failure key now other p.tracker,
    lookup-remove key other p.tracker,
  )

  act-other :
      (o : Outcome (Bool × Option Template)) (s : McpServer Q) (other : String) (p q : Pass Q)
      → server_key s ≢ other
      → act fetch api status_api now o s p ≡ some q
      → lookup other q.tracker ≡ lookup other p.tracker
  unfolding act
  act-other panicked s other p q k h = absurd (ground arith)
  act-other (failed err) s other p q k h = ground arith
  act-other (returned (false, t)) s other p q k h = ground arith
  act-other (returned (true, t)) s other p q k h = ground (
    arith,
    record_update-other (update_server_from_template fetch api status_api now s) (server_key s)
        other p q k,
  )

  check_server-other :
      (s : McpServer Q) (other : String) (p q : Pass Q)
      → server_key s ≢ other
      → check_server fetch api status_api now s p ≡ some q
      → lookup other q.tracker ≡ lookup other p.tracker
  unfolding check_server
  check_server-other s other p q k h =
      ground (arith, act-other (is_update_required fetch s) s other p q k)

module _ {Q : Type 0} (fetch : String → String → String ⊎ Template)
    (api status_api : McpServer Q → Option String) where
  check_servers-counts :
      (servers : List (ℤ × McpServer Q)) (p q : Pass Q)
      → check_servers fetch api status_api servers p ≡ some q
      → q.updated_count + q.error_count ≤ p.updated_count + p.error_count + length servers
  unfolding check_servers
  check_servers-counts [] p q h = ground arith
  check_servers-counts ((now, s) ∷ servers) p q h =
      elim (Option-cases (check_server fetch api status_api now s p)) [
        | inl none_eq ↦ absurd (ground arith)
        | inr next ↦ ground (
          arith,
          check_server-counts fetch api status_api now s p next.0 next.1,
          check_servers-counts servers next.0 q,
        )
      ]

  check_servers-other :
      (servers : List (ℤ × McpServer Q)) (other : String) (p q : Pass Q)
      → All (λ x. server_key x.1 ≢ other) servers
      → check_servers fetch api status_api servers p ≡ some q
      → lookup other q.tracker ≡ lookup other p.tracker
  unfolding check_servers
  check_servers-other [] other p q a h = ground arith
  check_servers-other ((now, s) ∷ servers) other p q a h =
      elim (Option-cases (check_server fetch api status_api now s p)) [
        | inl none_eq ↦ absurd (ground arith)
        | inr next ↦
            check_servers-other servers other next.0 q a.1 (ground arith)
            ∙ check_server-other fetch api status_api now s other p next.0 a.0 next.1
      ]

  abbrev start : Dict UpdateFailureInfo → Pass Q
  start tracker = record { tracker = tracker; updated_count = 0; error_count = 0; made = [] }

  returned_pass :
      (servers : List (ℤ × McpServer Q)) (tracker : Dict UpdateFailureInfo) (q : Pass Q)
      → check_for_updates fetch api status_api (inr servers) tracker ≡ returned q
      → check_servers fetch api status_api servers (start tracker) ≡ some q
  unfolding check_for_updates
  returned_pass servers tracker q h = ground arith

  -- A pass that ends reports, as updated and as failed together, no more servers than were listed.
  pub check_for_updates_counts :
      (servers : List (ℤ × McpServer Q)) (tracker : Dict UpdateFailureInfo) (q : Pass Q)
      → check_for_updates fetch api status_api (inr servers) tracker ≡ returned q
      → q.updated_count + q.error_count ≤ length servers
  check_for_updates_counts servers tracker q h =
      omega
        (arith, check_servers-counts servers (start tracker) q (returned_pass servers tracker q h))

  -- A pass that ends leaves the failure record of every key that is not of a listed server as it
  -- was.
  pub lookup-check_for_updates :
      (servers : List (ℤ × McpServer Q)) (other : String) (tracker : Dict UpdateFailureInfo)
      (q : Pass Q)
      → check_for_updates fetch api status_api (inr servers) tracker ≡ returned q
      → All (λ x. server_key x.1 ≢ other) servers
      → lookup other q.tracker ≡ lookup other tracker
  lookup-check_for_updates servers other tracker q h a =
      check_servers-other servers other (start tracker) q a (returned_pass servers tracker q h)

-- A server whose template cannot be fetched is passed over without a call and without a failure
-- record, so that no backoff follows. The failure is counted unless the server names no registry or
-- is in its backoff period.
pub check_server-failed :
    {Q : Type 0} (fetch : String → String → String ⊎ Template)
    (api status_api : McpServer Q → Option String) (now : ℤ) (s : McpServer Q) (p : Pass Q)
    (err : String)
    → is_update_required fetch s ≡ failed err
    → check_server fetch api status_api now s p
      ≡ some (
          if unregistered s.spec.registry || is_in_backoff_period now (server_key s) p.tracker
          then p
          else record p { error_count = p.error_count + 1 })
unfolding check_server act
check_server-failed fetch api status_api now s p err h = ground arith
