-- ===== src/RegistryController/Kept.antt =====
-- controllers/mcpregistry_controller.go: `updateStatusWithRetry` keeps the status that it is to
-- send.
use mcp_operator.Prelude.{ℕ, zero, suc, String, ◌≡◌, refl, ◌∙◌, Option}
use mcp_operator.RegistryService.{Read, found, absent, broken}
use mcp_operator.RegistryController.{Catalog, Sent, accepted, conflict, refused, Answers}
use mcp_operator.RegistryController.Update.{
  onto, after_send, update_status_from, update_status_with_retry,
}

status-onto : (answer : Read Catalog) (c : Catalog) → (onto answer c).status ≡ c.status
status-onto (found latest) c = refl
status-onto absent c = refl
status-onto (broken err) c = refl

module _ (answers : Answers) (update : ℕ) where
  status-after_send :
      (c : Catalog) (again : Read Catalog → Catalog × Option String) (s : Sent)
      → ((answer : Read Catalog) → (again answer).0.status ≡ c.status)
      → (after_send answers update c again s).0.status ≡ c.status
  status-after_send c again accepted kept = refl
  status-after_send c again (refused err) kept = refl
  status-after_send c again (conflict answer) kept = kept answer

  status-update_status_from :
      (left : ℕ) (c : Catalog) → (update_status_from answers update left c).0.status ≡ c.status
  unfolding update_status_from
  status-update_status_from zero c = refl
  status-update_status_from (suc left) c =
      status-after_send c (λ answer. update_status_from answers update left (onto answer c))
        (answers.send update left c)
        (λ answer. status-update_status_from left (onto answer c) ∙ status-onto answer c)

  -- Whatever the API server answers to the attempts, and whatever it has when they conflict, the
  -- registry that is left has the status that was to be sent.
  pub status-update_status_with_retry :
      (c : Catalog) → (update_status_with_retry answers update c).0.status ≡ c.status
  unfolding update_status_with_retry
  status-update_status_with_retry c = status-update_status_from 5 c
