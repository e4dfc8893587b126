-- ===== src/Gateway/Requests.antt =====
-- The request model of gateway/gateway_api.py with its limits. Pydantic's own checks of
-- the fields are not modelled.
use privacy_gateway_llm_appl.Prelude.{
  ℕ, Float, ◌+◌, Text, List, [], ◌∷◌, ◌++◌, Option, Bool, true, ◌&&◌, leb, length,
}

pub data Role : Type 0 where
  system user assistant : Role

-- class ChatMessage
pub record ChatMessage : Type 0 where
  pub role : Role
  pub content : Text

-- class ChatCompletionRequest
pub record ChatCompletionRequest : Type 0 where
  pub model : Text
  pub messages : List ChatMessage
  pub temperature : Option Float
  pub max_tokens : Option ℕ
  pub metadata : List (Text × Text)
  pub rehydrate : Bool

abbrev max_messages : ℕ
max_messages = 50

abbrev max_content_chars : ℕ
max_content_chars = 20000

abbrev max_total_chars : ℕ
max_total_chars = 60000

abbrev max_metadata_items : ℕ
max_metadata_items = 16

abbrev max_metadata_value_chars : ℕ
max_metadata_value_chars = 256

abbrev total_chars : List ChatMessage → ℕ
total_chars [] = 0
total_chars (m ∷ messages) = length m.content + total_chars messages

abbrev metadata_fits : List (Text × Text) → Bool
metadata_fits [] = true
metadata_fits ((key, value) ∷ more) =
    leb (length key) 64 && leb (length value) max_metadata_value_chars && metadata_fits more

-- ChatCompletionRequest._enforce_size_limits
unfoldable pub enforce_size_limits : ChatCompletionRequest → Bool
enforce_size_limits body =
    leb (total_chars body.messages) max_total_chars
    && leb (length body.metadata) max_metadata_items
    && metadata_fits body.metadata

-- "\n".join(..)
abbrev pub join_lines : List Text → Text
join_lines [] = []
join_lines (t ∷ []) = t
join_lines (t ∷ u ∷ ts) = t ++ b'\n' ∷ join_lines (u ∷ ts)
