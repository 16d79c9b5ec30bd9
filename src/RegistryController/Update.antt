-- ===== src/RegistryController/Update.antt =====
-- controllers/mcpregistry_controller.go: `updateStatusWithRetry` and `getAuthToken`.
use mcp_operator.Prelude.{
  ℕ, zero, suc, String, ◌⊎◌, inl, inr, Option, none, some, [], ◌∷◌, if◌then◌else◌, concat, Dict,
  lookup,
}
use mcp_operator.RegistryService.{Read, found, absent, broken}
use mcp_operator.RegistryService.Token.{SecretReference}
use mcp_operator.RegistryController.{Catalog, Sent, accepted, conflict, refused, Answers}

-- The status goes onto what was read, if it was.
abbrev pub onto : Read Catalog → Catalog → Catalog
onto (found latest) c = record latest { status = c.status }
onto absent c = c
onto (broken err) c = c

module _ (answers : Answers) (update : ℕ) where
  -- By the answer to an attempt, with what the later attempts come to.
  abbrev pub after_send :
      Catalog → (Read Catalog → Catalog × Option String) → Sent → Catalog × Option String
  after_send c again accepted = (c, none)
  after_send c again (refused err) = (c, some err)
  after_send c again (conflict answer) = again answer

  unfoldable pub update_status_from : (left : ℕ) → Catalog → Catalog × Option String
  update_status_from zero c = (c, some "timed out waiting for the condition")
  update_status_from (suc left) c =
      after_send c (λ answer. update_status_from left (onto answer c)) (answers.send update left c)

  unfoldable pub update_status_with_retry : Catalog → Catalog × Option String
  unfolding update_status_from
  update_status_with_retry c = update_status_from 5 c

abbrev pub token_in : (r : SecretReference) → Dict String → String ⊎ String
token_in r content = elim (lookup r.key content) [
  | none ↦ inl (concat ("key " ∷ r.key ∷ " not found in secret " ∷ r.name ∷ []))
  | some token ↦ inr token
]

abbrev pub of_answer : SecretReference → Read (Dict String) → String ⊎ String
of_answer r absent =
    if r.optional
    then inr ""
    else inl (concat ("failed to get secret " ∷ r.name ∷ ": " ∷ "not found" ∷ []))
of_answer r (broken err) = inl (concat ("failed to get secret " ∷ r.name ∷ ": " ∷ err ∷ []))
of_answer r (found content) = token_in r content

module _ (answers : Answers) where
  abbrev pub token_by : (namespace : String) → Option SecretReference → String ⊎ String
  token_by namespace none = inr ""
  token_by namespace (some r) = of_answer r (answers.secret r.name namespace)

  unfoldable pub get_auth_token : Catalog → String ⊎ String
  get_auth_token c = elim c.spec.auth [ none ↦ inr "" | some a ↦ token_by c.namespace a.secret_ref ]
