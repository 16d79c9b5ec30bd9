-- ===== src/RetryService/Tests.antt =====
-- An operation that succeeds at its third attempt.
use mcp_operator.Prelude.{◌≡◌, refl, false, none, some, ltb, if◌then◌else◌}
use mcp_operator.RetryService.{new_retry_service, Attempts, retry_deployment_operation}
use mcp_operator.RetryService.Results.{after_calls}

abbrev third_succeeds : Attempts
third_succeeds = record {
  operation = λ n. if ltb n 2 then some "busy" else none;
  is_done = λ n. false;
  is_cut = λ n. false;
}

called_three_times :
    retry_deployment_operation third_succeeds (λ n. "5") new_retry_service ≡ after_calls 3
unfolding retry_deployment_operation
called_three_times = refl
