-- ===== src/Logging/Examples.antt =====
-- The loggers of gateway/logging_utils.py after a basicConfig at DEBUG.
use privacy_gateway_llm_appl.Prelude.{codes, ◌≡◌}
use privacy_gateway_llm_appl.Logging.{content_leaking_loggers, configure_safe_logging}
use privacy_gateway_llm_appl.Logging.Levels.{is_listed, wanted_level, configure_safe_logging_lem}

configure_safe_logging_lem_example :
    configure_safe_logging (λ name. 10) (codes "decision_process")
    ≡ wanted_level (is_listed (codes "decision_process") content_leaking_loggers) 10
configure_safe_logging_lem_example =
    configure_safe_logging_lem (λ name. 10) (codes "decision_process")
