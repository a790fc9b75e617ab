-- ===== src/Resilience/Retry/Tests.antt =====
-- Instances of the laws of the retry middleware.
use agent_proxy_rust.Common.{◌≡◌, ◌↔◌, ◌⊎◌, ◌≢◌, ◌≤◌, ◌<◌, get_or, refl, some}
use agent_proxy_rust.Core.Error.{ok}
use agent_proxy_rust.Core.Types.{read, as_number}
use agent_proxy_rust.Resilience.Retry.{default_config, backoff_delay, on_response, ext_retryable}
use agent_proxy_rust.Resilience.Retry.Laws.{on_response_passes_iff}
use agent_proxy_rust.Samples.{context_for, response_with, status_class, status_class-IsStatusClass}

-- The delays of the tests in the source.
delays :
    (backoff_delay 0 default_config ≡ some 100_000_000)
    × (backoff_delay 3 default_config ≡ some 800_000_000)
    × (backoff_delay 6 (record default_config { max_delay = 1_000_000_000 }) ≡ some 1_000_000_000)
unfolding backoff_delay
delays = (refl, refl, refl)

on_response_passes_iff_example :
    (on_response status_class default_config (response_with 404) (context_for "ds") ≡ some (ok tt))
    ↔ ((((response_with 404).status ≢ 429)
          × ¬ ((500 ≤ (response_with 404).status) × ((response_with 404).status < 600)))
        ⊎ (default_config.max_retries ≤ get_or 0 (read as_number ext_retryable (context_for "ds"))))
on_response_passes_iff_example =
    on_response_passes_iff status_class status_class-IsStatusClass default_config
      (response_with 404) (context_for "ds")
