-- ===== src/Config.antt =====
-- gateway/config.py: the settings and the rules that they have to meet. Reading the environment and
-- the `.env` file, and parsing the texts found there to the types of the fields, is the parameter
-- `parse` of `load`: it gives the typed values, or the names of the fields that it cannot parse, or
-- an exception.
pub mod Safety
pub mod Examples
use privacy_gateway_llm_appl.Prelude.{
  finite_float, ℕ, AnyFloat, infinite_float, nan_float, float_one, ◌*◌, ◌^◌, Text, codes, List, [],
  ◌∷◌, ◌++◌, Option, none, some, Bool, true, false, not, ◌&&◌, ◌||◌, leb, ltb, length, text_eq,
  nat_eq, ◌==◌, if◌then◌else◌,
}
use privacy_gateway_llm_appl.Errors.{
  Exception, Result, ok, raise, gateway, configuration_error, ◌>>=◌,
}
use privacy_gateway_llm_appl.Policy.{sorted}

-- INSECURE_DEV_KEY
abbrev pub insecure_dev_key : Text
insecure_dev_key = codes "insecure-dev-key-set-GATEWAY_AUDIT_HMAC_KEY"

abbrev pub min_hmac_key_length : ℕ
min_hmac_key_length = 32

-- class AppEnv(StrEnum)
pub data AppEnv : Type 0 where
  development test production : AppEnv

-- Literal["mock", "openai", "anthropic"]
pub data Provider : Type 0 where
  mock openai anthropic : Provider

abbrev pub provider_value : Provider → Text
provider_value mock = codes "mock"
provider_value openai = codes "openai"
provider_value anthropic = codes "anthropic"

-- class Settings. A secret is the text that get_secret_value() returns.
pub record Settings : Type 0 where
  pub app_env : AppEnv
  pub provider : Provider
  pub openai_api_key : Text
  pub openai_base_url : Text
  pub anthropic_api_key : Text
  pub anthropic_base_url : Text
  pub audit_db_path : Text
  pub audit_hmac_key : Text
  pub admin_api_key : Text
  pub audit_checkpoint_path : Text
  pub policy_file : Text
  pub score_threshold : AnyFloat
  pub response_scan_enabled : Bool
  pub audit_store_redacted_content : Bool
  pub provider_timeout_seconds : AnyFloat

-- The defaults of the fields: what is loaded where the environment sets nothing. 0.4 is the double
-- 3602879701896397 / 2^53.
unfoldable pub default_settings : Settings
default_settings = record {
  app_env = development;
  provider = mock;
  openai_api_key = [];
  openai_base_url = codes "https://api.openai.com/v1";
  anthropic_api_key = [];
  anthropic_base_url = codes "https://api.anthropic.com";
  audit_db_path = codes "audit_log.db";
  audit_hmac_key = [];
  admin_api_key = [];
  audit_checkpoint_path = [];
  policy_file = [];
  score_threshold =
      finite_float (record { is_negative = false; magnitude = 3602879701896397 * 2 ^ 1021 });
  response_scan_enabled = false;
  audit_store_redacted_content = false;
  provider_timeout_seconds =
      finite_float (record { is_negative = false; magnitude = 30 * float_one });
}

-- What is taken of pydantic: the name that it reports for a field, and whether NaN, which compares with
-- nothing, meets ge, gt and le.
pub record Pydantic : Type 0 where
  pub loc : Text → Text
  pub nan_passes : Bool

-- x <= n for a whole number n, x >= 0 and x > 0
unfoldable pub at_most : Pydantic → AnyFloat → ℕ → Bool
at_most py (finite_float x) n = if x.is_negative then true else leb x.magnitude (n * float_one)
at_most py (infinite_float is_negative) n = is_negative
at_most py nan_float n = py.nan_passes

unfoldable pub not_below_zero : Pydantic → AnyFloat → Bool
not_below_zero py (finite_float x) = if x.is_negative then x.magnitude == 0 else true
not_below_zero py (infinite_float is_negative) = not is_negative
not_below_zero py nan_float = py.nan_passes

unfoldable pub above_zero : Pydantic → AnyFloat → Bool
above_zero py (finite_float x) = not x.is_negative && ltb 0 x.magnitude
above_zero py (infinite_float is_negative) = not is_negative
above_zero py nan_float = py.nan_passes

-- Field(ge=0.0, le=1.0) and Field(gt=0.0, le=600.0)
unfoldable pub score_in_range : Pydantic → Settings → Bool
score_in_range py s = not_below_zero py s.score_threshold && at_most py s.score_threshold 1

unfoldable pub timeout_in_range : Pydantic → Settings → Bool
timeout_in_range py s =
    above_zero py s.provider_timeout_seconds && at_most py s.provider_timeout_seconds 600

-- raise ConfigurationError(message)
abbrev pub configuration : Text → Result Settings
configuration message = raise (gateway (configuration_error (some message)))

abbrev pub credentials : Provider → Settings → Result Settings
credentials openai s =
    if s.openai_api_key == []
    then configuration (codes "OPENAI_API_KEY is required for the openai provider.")
    else ok s
credentials anthropic s =
    if s.anthropic_api_key == []
    then configuration (codes "ANTHROPIC_API_KEY is required for the anthropic provider.")
    else ok s
credentials mock s = ok s

-- the branch of _enforce_security_rules for production
unfoldable pub production_rules : Settings → Result Settings
production_rules s =
    if s.audit_hmac_key == []
    then configuration (codes "GATEWAY_AUDIT_HMAC_KEY is required when APP_ENV=production.")
    else if s.audit_hmac_key == insecure_dev_key
    then configuration (codes "The insecure development HMAC key cannot be used in production.")
    else if ltb (length s.audit_hmac_key) min_hmac_key_length
    then configuration
        (codes "GATEWAY_AUDIT_HMAC_KEY must be at least 32 characters in production.")
    else credentials s.provider s

unfoldable pub with_dev_key : Settings → Settings
with_dev_key s =
    if s.audit_hmac_key == [] then record s { audit_hmac_key = insecure_dev_key } else s

abbrev pub rules_for : AppEnv → Settings → Result Settings
rules_for production s = production_rules s
rules_for development s = ok (with_dev_key s)
rules_for test s = ok (with_dev_key s)

-- Settings._enforce_security_rules
unfoldable pub enforce_security_rules : Settings → Result Settings
enforce_security_rules s = rules_for s.app_env s

-- What pydantic makes of the input: typed values, or the names of all the fields that are wrong, or an
-- exception that is no ValidationError, such as the UnicodeDecodeError of a `.env` that is not UTF-8. It
-- runs the range checks and the validator only on typed values.
pub data Parsed : Type 0 where
  unparsed : List Text → Parsed
  parsed : Settings → Parsed
  unread : Exception → Parsed

abbrev pub comma_separated : List Text → Text
comma_separated [] = []
comma_separated (t ∷ []) = t
comma_separated (t ∷ u ∷ ts) = t ++ codes ", " ++ comma_separated (u ∷ ts)

abbrev is_in : Text → List Text → Bool
is_in t [] = false
is_in t (u ∷ us) = u == t || is_in t us

-- The elements of a set of names, in order of their first occurrence.
unfoldable pub distinct : List Text → List Text → List Text
distinct seen [] = []
distinct seen (t ∷ ts) =
    let skipped = distinct seen ts in
    let taken = t ∷ distinct (t ∷ seen) ts in if is_in t seen then skipped else taken

-- ", ".join(sorted({..})) or "unknown"
unfoldable pub field_names : List Text → Text
field_names names =
    let joined = comma_separated (sorted (distinct [] names)) in
    if joined == [] then codes "unknown" else joined

abbrev pub invalid_fields : List Text → Text
invalid_fields names =
    codes "Invalid configuration value(s) for: " ++ (field_names names ++ codes ".")

unfoldable pub range_errors : Pydantic → Settings → List Text
range_errors py s =
    (if score_in_range py s then [] else py.loc (codes "score_threshold") ∷ [])
    ++ (if timeout_in_range py s then [] else py.loc (codes "provider_timeout_seconds") ∷ [])

abbrev pub or_validation_error : List Text → Settings → Result Settings
or_validation_error [] s = enforce_security_rules s
or_validation_error (f ∷ fs) s = configuration (invalid_fields (f ∷ fs))

-- Settings.load
unfoldable pub load : {I : Type 0} → (I → Parsed) → Pydantic → I → Result Settings
load parse py input = elim (parse input) [
  | unparsed fields ↦ configuration (invalid_fields fields)
  | parsed s ↦ or_validation_error (range_errors py s) s
  | unread x ↦ raise x
]

-- Settings.audit_endpoints_enabled
unfoldable pub audit_endpoints_enabled : Settings → Bool
audit_endpoints_enabled s = not (s.admin_api_key == [])

-- Settings.audit_hmac_key_bytes, where `encode` gives the bytes of a text in UTF-8
unfoldable pub audit_hmac_key_bytes : (Text → Result Text) → Settings → Result Text
audit_hmac_key_bytes encode s = encode s.audit_hmac_key

-- Settings.from_env
unfoldable pub from_env : {I : Type 0} → (I → Parsed) → Pydantic → I → Result Settings
from_env parse py input = load parse py input
