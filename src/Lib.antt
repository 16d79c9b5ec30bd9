-- ===== src/Lib.antt =====
-- A verification library for the MCP operator for Kubernetes: models of its core packages,
-- translated from their Go source, and theorems about them.
--
-- The operator keeps custom resources (api/v1) that describe MCP servers and the registries they
-- come from. Admission webhooks default and check a server, controllers reconcile it with the help
-- of the services of pkg/services, and calls of registries and of GitHub run under the retriers
-- and the circuit breaker of pkg/retry and pkg/circuitbreaker.
--
-- - Prelude: strings, lists, integers with their wrap-around, and dictionaries, shared by all
--   models. A Go int is an integer, a Go map an association list, a string is compared whole or
--   read by its runes or UTF-8 bytes.
-- - Api: the fields of api/v1/mcpserver_types.go and api/v1/mcpregistry_types.go that the models
--   read or write, and the operations of resource.Quantity, a parameter of the models that use it.
-- - CircuitBreaker: pkg/circuitbreaker/circuitbreaker.go. The state is the record
--   CircuitBreaker; `call` is Call with beforeRequest, the function's outcome (which may be a
--   panic) and afterRequest. Spec holds the two-state contract, Invariant the invariant, Probes
--   the runs through the half-open state.
-- - Retry: pkg/retry/retry.go. The loop of DoWithRetryable is `retry_loop`, on an environment
--   that gives each attempt's result and each wait's interruption, with the log of its calls;
--   Delay is calculateDelay over floating-point numbers with the laws it needs. The loop runs on
--   the number of values that `attempt` takes, MaxRetries + 1, so that the end of the count is the
--   loop's own end.
-- - Retry.Github: pkg/retry/github_retry.go, likewise, with the response bodies that it closes.
-- - Status: pkg/services/status_service.go: conditions, phases, the update from a deployment,
--   the timeout, and in Registry the methods on registries.
-- - AutoUpdate: pkg/services/auto_update_service.go: the failure tracker, and in Template,
--   Update and Check the comparison with a template, the rewriting, and one pass over all servers.
--   The registry and the API server are functions from a request to an answer, so a registry
--   answers alike for the length of a statement, and a successful update leaves the object as it
--   was sent. Sync is a step relation on the goroutines of the periodic sync and the flag and stop
--   channel they share.
-- - Webhook: pkg/webhook/mcpserver_webhook.go, with the rules in Rules, both defaulters in
--   Defaults (that of api/v1/mcpserver_webhook.go as well), and the two webhooks in a row in
--   Chain.
-- - Validation: pkg/services/validation_service.go, with the quotas in Quota, the labels in
--   Label and ValidateRegistry in Registry; Whole, Counts and Agreement hold the theorems. The
--   pods and services of a tenant are the API server's answers.
-- - Cache: pkg/services/cache_service.go. Entries is about one map, History its contract,
--   Commands the whole service under any sequence of calls.
-- - RegistryCache: pkg/registry/cache/cache_manager.go: the safe names of servers, the
--   ConfigMaps of one namespace and their clean-up. Marshalling, the owner reference, the apply, the
--   listing and each deletion may fail.
-- - Backup: controllers/mcpserverbackup_controller.go with api/v1/mcpserverbackup_types.go. Reconcile
--   and Controller are one reconciliation, on an environment of answers, with the writes that it
--   makes; Dependencies, Retention, Files and Objects are the parts that it calls or, for the
--   objects of a bucket, that the cleanup calls. The loops over a bucket's pages and batches run on
--   a number of rounds: Listing says when some number is enough for the pages, and that the number
--   of objects is enough for the batches.
--   `sort.Slice` is a parameter that is given the code's comparator; InsertionSort is a sort to
--   run the controller with.
-- - RegistryService: pkg/services/registry_service.go. The parent has EnrichMCPServerFromCache, with
--   the parser of the cached text as a parameter, Fetched the two enrichments over the registry
--   client, Token the choice of the token and the methods on a registry.
-- - RetryService: RetryWithBackoff of pkg/services/retry_service.go, over attempts that are
--   answered by their number.
-- - Server: controllers/mcpserver_controller.go. Reconcile is one reconciliation up to the
--   rendering, Registered its branch for a server with a registry and the deletion, Deploy all from
--   the rendering on, Deployed what it reads off the deployment, Watch the servers that a ConfigMap
--   wakes. It uses the models of the status, validation, registry and retry services; the renderer,
--   the deployment service and the Istio controller are known by their answers, and what a
--   reconciliation does is a list of effects.
-- - RegistryController: controllers/mcpregistry_controller.go. Sync is one reconciliation, Update the
--   update of the status with its five attempts, and the token; a registry is a Catalog. The GitHub
--   client and the registry cache are known by their answers.
-- - ResourceBuilder: pkg/services/resource_builder_service.go. The parent has the labels and the
--   selectors, Container the ports, variables and probes of the three containers, Workload the
--   deployment, the service, the ConfigMap, the secret and the autoscaler, NetworkPolicy the policy
--   of a tenant. Selected, Routed, Probed, Isolated and Scaled are about how they fit together.
-- - DeploymentService: pkg/services/deployment_service.go, on a store of objects that are found by
--   their kind and name; Faults are the errors of the API server.
--
-- Loops over lists are structural recursion, and no other model runs on fuel. A nil dereference is
-- `none` or a constructor of its own. Methods that hold a mutex throughout are one step, so that
-- their interleavings are sequences of steps; apart from the periodic sync, the other services are
-- the work of one goroutine. An instant is a number of nanoseconds and the clock is an argument.
--
-- Not modelled: logging, metrics beyond the counted labels, the encoding of admission requests,
-- the Kubernetes client and the HTTP clients (libraries), rendering, the command line, the
-- generated deep copies, volumes, the VPA and the Istio resources, the S3 client with multipart
-- uploads, metadata and indexes, and, so far, the simple resource builder, the renderer and syncer,
-- and the registry client.
pub mod Api
pub mod AutoUpdate
pub mod Backup
pub mod Cache
pub mod CircuitBreaker
pub mod DeploymentService
pub mod Prelude
pub mod RegistryCache
pub mod RegistryController
pub mod RegistryService
pub mod ResourceBuilder
pub mod Retry
pub mod RetryService
pub mod Server
pub mod Status
pub mod Validation
pub mod Webhook
