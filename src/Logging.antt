-- ===== src/Logging.antt =====
-- gateway/logging_utils.py: the levels of the loggers that can show the content of requests.
pub mod Levels
pub mod Examples
use privacy_gateway_llm_appl.Prelude.{
  ℕ, Text, codes, List, [], ◌∷◌, ◌||◌, ltb, nat_eq, text_eq, ◌==◌, if◌then◌else◌,
}

-- logging.INFO and logging.NOTSET
abbrev pub info : ℕ
info = 20

abbrev pub notset : ℕ
notset = 0

-- _CONTENT_LEAKING_LOGGERS
abbrev pub content_leaking_loggers : List Text
content_leaking_loggers =
    codes "presidio-analyzer" ∷ codes "presidio-anonymizer" ∷ codes "decision_process" ∷ []

-- The level of every logger, by its name.
abbrev pub Levels : Type 0
Levels = Text → ℕ

-- third_party.setLevel(level)
unfoldable pub set_level : Text → ℕ → Levels → Levels
set_level name level levels other = if name == other then level else levels other

unfoldable pub pin : Text → Levels → Levels
pin name levels other =
    if levels name == notset || ltb (levels name) info
    then set_level name info levels other
    else levels other

unfoldable pub pin_all : List Text → Levels → Levels
pin_all [] levels = levels
pin_all (name ∷ names) levels = pin_all names (pin name levels)

-- configure_safe_logging
unfoldable pub configure_safe_logging : Levels → Levels
configure_safe_logging levels = pin_all content_leaking_loggers levels
