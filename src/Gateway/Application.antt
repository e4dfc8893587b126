-- ===== src/Gateway/Application.antt =====
-- create_app of gateway/gateway_api.py: how the components of the application are put together, and
-- the policy of the response scan.
use privacy_gateway_llm_appl.Prelude.{
  Text, [], ◌∷◌, Option, none, some, Bool, true, false, if◌then◌else◌, text_eq, ◌==◌,
}
use privacy_gateway_llm_appl.Errors.{Result, ok, ◌>>=◌}
use privacy_gateway_llm_appl.Json.{Json}
use privacy_gateway_llm_appl.Config.{Settings, provider_value, audit_hmac_key_bytes}
use privacy_gateway_llm_appl.Logging.{Levels, configure_safe_logging}
use privacy_gateway_llm_appl.Policy.{Policy, PolicyAction, allow, redact, load_policy}
use privacy_gateway_llm_appl.Mediator.{Presidio, PiiMediator, clone_with_policy}
use privacy_gateway_llm_appl.Audit.{Library, AuditLogger}
use privacy_gateway_llm_appl.Providers.Clients.{LlmClient, build_client}
use privacy_gateway_llm_appl.Gateway.{AuditPayload, App}

-- The arguments of create_app.
pub record Components : Type 0 where
  pub settings : Option Settings
  pub mediator : Option PiiMediator
  pub audit_logger : Option (AuditLogger AuditPayload)
  pub llm_client : Option LlmClient

-- What the constructors read: the outcome of Settings.load, the policy file, Presidio's engines with
-- their models, the hash and JSON functions, and the first connection to the database.
pub record Platform : Type 0 where
  pub load_settings : Result Settings
  pub read : Text → Result Json
  pub encode : Text → Result Text
  pub levels : Levels
  pub new_presidio : Result Presidio
  pub library : Library AuditPayload
  pub connect : Text → Result {0} Unit

-- app.state, and the settings that the endpoints read.
pub record Application : Type 0 where
  pub app : App
  pub settings : Settings
  pub policy : Policy
  pub checkpoint_store : Option Text
  pub llm_client : LlmClient
  pub levels : Levels

-- `x or y`
abbrev given_or : {A : Type 0} → Option A → Result A → Result A
given_or (some a) built = ok a
given_or none built = built

-- `text or None`, and a store where there is a path
abbrev or_none : Text → Option Text
or_none text = if text == [] then none else some text

abbrev is_set : Option Text → Bool
is_set none = false
is_set (some t) = true

unfoldable pub response_action : PolicyAction → PolicyAction
response_action allow = allow
response_action _ = redact

-- the dict comprehension `response_policy`
unfoldable pub response_policy : Policy → Policy
response_policy [] = []
response_policy ((entity, action) ∷ items) =
    (entity, response_action action) ∷ response_policy items

abbrev pub response_mediator_for : Bool → PiiMediator → Option PiiMediator
response_mediator_for true m = some (clone_with_policy m (response_policy m.policy))
response_mediator_for false m = none

unfoldable pub new_mediator : Platform → Settings → Policy → Result PiiMediator
new_mediator platform settings policy = platform.new_presidio >>= λ presidio.
    ok (record { presidio = presidio; policy = policy; score_threshold = settings.score_threshold })

unfoldable pub new_logger : Platform → Settings → Option Text → Result (AuditLogger AuditPayload)
new_logger platform settings checkpoint_store =
    audit_hmac_key_bytes platform.encode settings >>= λ hmac_key.
    platform.connect settings.audit_db_path >>= λ opened. ok (record {
      lib = platform.library;
      hmac_key = hmac_key;
      has_checkpoint_store = is_set checkpoint_store;
    })

-- create_app, up to the registration of the handlers
unfoldable pub create_app : Platform → Components → Result Application
create_app platform given = do
  settings ← given_or given.settings platform.load_settings
  policy ← load_policy platform.read (or_none settings.policy_file)
  mediator ← given_or given.mediator (new_mediator platform settings policy)
  audit_logger ←
      given_or given.audit_logger
        (new_logger platform settings (or_none settings.audit_checkpoint_path))
  llm_client ← given_or given.llm_client (ok (build_client settings))
  ok (record {
    app = record {
      provider = provider_value settings.provider;
      audit_store_redacted_content = settings.audit_store_redacted_content;
      mediator = mediator;
      response_mediator = response_mediator_for settings.response_scan_enabled mediator;
      audit_logger = audit_logger;
    };
    settings = settings;
    policy = policy;
    checkpoint_store = or_none settings.audit_checkpoint_path;
    llm_client = llm_client;
    levels = configure_safe_logging platform.levels;
  })
