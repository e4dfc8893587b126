-- ===== src/Config/Examples.antt =====
-- Settings of gateway/config.py for production, loaded from an input that parses.
use privacy_gateway_llm_appl.Prelude.{
  finite_float, Text, codes, [], some, true, false, ◌≡◌, ◌⊎◌, refl, text_beq, float_one, ◌/◌, ◌*◌,
}
use privacy_gateway_llm_appl.Errors.{Exception, raise, ok, gateway, configuration_error}
use privacy_gateway_llm_appl.Config.{
  Settings, Parsed, parsed, unread, Pydantic, production, openai, load, default_settings,
  insecure_dev_key, range_errors, score_in_range, timeout_in_range, at_most, not_below_zero,
  above_zero, enforce_security_rules, with_dev_key,
}
use privacy_gateway_llm_appl.Config.Safety.{IsSafe, load-Answers}

abbrev production_settings : Settings
production_settings = record {
  app_env = production;
  provider = openai;
  openai_api_key = codes "sk-1";
  openai_base_url = codes "https://api.openai.com/v1";
  anthropic_api_key = [];
  anthropic_base_url = codes "https://api.anthropic.com";
  audit_db_path = codes "audit.db";
  audit_hmac_key = codes "0123456789abcdef0123456789abcdef";
  admin_api_key = [];
  audit_checkpoint_path = [];
  policy_file = [];
  score_threshold = finite_float (record { is_negative = false; magnitude = float_one / 2 });
  response_scan_enabled = true;
  audit_store_redacted_content = false;
  provider_timeout_seconds =
      finite_float (record { is_negative = false; magnitude = 30 * float_one });
}

abbrev parse_production : Text → Parsed
parse_production input = parsed production_settings

-- A pydantic that lets NaN pass.
abbrev lenient : Pydantic
lenient = record { loc = λ name. name; nan_passes = true }

load-Answers_example :
    ((s : Settings) × (load parse_production lenient (codes "env") ≡ ok s) × IsSafe lenient s)
    ⊎ (((message : Text) × (load parse_production lenient (codes "env")
            ≡ raise (gateway (configuration_error (some message)))))
        ⊎ ((x : Exception) × (parse_production (codes "env") ≡ unread x)
            × (load parse_production lenient (codes "env") ≡ raise x)))
load-Answers_example = load-Answers parse_production lenient (codes "env")

defaults_load :
    load (λ (input : Text). parsed default_settings) lenient []
    ≡ ok (record default_settings { audit_hmac_key = insecure_dev_key })
unfolding load range_errors score_in_range timeout_in_range at_most not_below_zero above_zero
    enforce_security_rules with_dev_key default_settings float_one text_beq
defaults_load = refl
