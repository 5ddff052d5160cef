-- ===== src/Admin/Edits/Fields.antt =====
-- The fields of models and backends that the admin page may set, and the JSON values that it sends.
use local_gateway.Prelude.{
  if◌then◌else◌, ℤ, pos, pos_part, nat_eq, int_eq, Text, text_eq, ℕ, Bool, true, false, Option,
  none, some, List, [], ◌∷◌,
}
use local_gateway.Config.{ModelConfig, BackendConfig}

pub data Value : Type 0 where
  null dict : Value
  truth : Bool → Value
  whole : ℤ → Value
  real : ℤ → Value
  words : Text → Value
  texts : List Text → Value

-- One entry of a whitelist: the test of `isinstance`, and `setattr`.
pub record Field (O : Type 0) : Type 0 where
  pub name : Text
  pub fits : Value → Bool
  pub assign : Value → O → O

abbrev provider_name : Text
provider_name = b'p' ∷ b'r' ∷ b'o' ∷ b'v' ∷ b'i' ∷ b'd' ∷ b'e' ∷ b'r' ∷ []

abbrev model_name : Text
model_name = b'm' ∷ b'o' ∷ b'd' ∷ b'e' ∷ b'l' ∷ []

abbrev enabled_name : Text
enabled_name = b'e' ∷ b'n' ∷ b'a' ∷ b'b' ∷ b'l' ∷ b'e' ∷ b'd' ∷ []

abbrev context_length_name : Text
context_length_name =
    b'c' ∷ b'o' ∷ b'n' ∷ b't' ∷ b'e' ∷ b'x' ∷ b't' ∷ b'_' ∷ b'l' ∷ b'e' ∷ b'n' ∷ b'g' ∷ b't' ∷ b'h'
    ∷ []

abbrev max_output_tokens_name : Text
max_output_tokens_name =
    b'm' ∷ b'a' ∷ b'x' ∷ b'_' ∷ b'o' ∷ b'u' ∷ b't' ∷ b'p' ∷ b'u' ∷ b't' ∷ b'_' ∷ b't' ∷ b'o' ∷ b'k'
    ∷ b'e' ∷ b'n' ∷ b's' ∷ []

abbrev cache_supported_name : Text
cache_supported_name =
    b'c' ∷ b'a' ∷ b'c' ∷ b'h' ∷ b'e' ∷ b'_' ∷ b's' ∷ b'u' ∷ b'p' ∷ b'p' ∷ b'o' ∷ b'r' ∷ b't' ∷ b'e'
    ∷ b'd' ∷ []

abbrev pub weight_name : Text
weight_name = b'w' ∷ b'e' ∷ b'i' ∷ b'g' ∷ b'h' ∷ b't' ∷ []

abbrev description_name : Text
description_name = b'd' ∷ b'e' ∷ b's' ∷ b'c' ∷ b'r' ∷ b'i' ∷ b'p' ∷ b't' ∷ b'i' ∷ b'o' ∷ b'n' ∷ []

abbrev capabilities_name : Text
capabilities_name =
    b'c' ∷ b'a' ∷ b'p' ∷ b'a' ∷ b'b' ∷ b'i' ∷ b'l' ∷ b'i' ∷ b't' ∷ b'i' ∷ b'e' ∷ b's' ∷ []

abbrev modality_name : Text
modality_name = b'm' ∷ b'o' ∷ b'd' ∷ b'a' ∷ b'l' ∷ b'i' ∷ b't' ∷ b'y' ∷ []

abbrev tags_name : Text
tags_name = b't' ∷ b'a' ∷ b'g' ∷ b's' ∷ []

abbrev aliases_name : Text
aliases_name = b'a' ∷ b'l' ∷ b'i' ∷ b'a' ∷ b's' ∷ b'e' ∷ b's' ∷ []

abbrev default_params_name : Text
default_params_name =
    b'd' ∷ b'e' ∷ b'f' ∷ b'a' ∷ b'u' ∷ b'l' ∷ b't' ∷ b'_' ∷ b'p' ∷ b'a' ∷ b'r' ∷ b'a' ∷ b'm' ∷ b's'
    ∷ []

abbrev display_name_name : Text
display_name_name =
    b'd' ∷ b'i' ∷ b's' ∷ b'p' ∷ b'l' ∷ b'a' ∷ b'y' ∷ b'_' ∷ b'n' ∷ b'a' ∷ b'm' ∷ b'e' ∷ []

abbrev avatar_name : Text
avatar_name = b'a' ∷ b'v' ∷ b'a' ∷ b't' ∷ b'a' ∷ b'r' ∷ []

abbrev probe_interval_s_name : Text
probe_interval_s_name =
    b'p' ∷ b'r' ∷ b'o' ∷ b'b' ∷ b'e' ∷ b'_' ∷ b'i' ∷ b'n' ∷ b't' ∷ b'e' ∷ b'r' ∷ b'v' ∷ b'a' ∷ b'l'
    ∷ b'_' ∷ b's' ∷ []

abbrev cache_responses_name : Text
cache_responses_name =
    b'c' ∷ b'a' ∷ b'c' ∷ b'h' ∷ b'e' ∷ b'_' ∷ b'r' ∷ b'e' ∷ b's' ∷ b'p' ∷ b'o' ∷ b'n' ∷ b's' ∷ b'e'
    ∷ b's' ∷ []

abbrev endpoint_name : Text
endpoint_name = b'e' ∷ b'n' ∷ b'd' ∷ b'p' ∷ b'o' ∷ b'i' ∷ b'n' ∷ b't' ∷ []

abbrev pub time_routing_name : Text
time_routing_name =
    b't' ∷ b'i' ∷ b'm' ∷ b'e' ∷ b'_' ∷ b'r' ∷ b'o' ∷ b'u' ∷ b't' ∷ b'i' ∷ b'n' ∷ b'g' ∷ []

unfoldable pub is_words : Value → Bool
is_words (words t) = true
is_words _ = false

unfoldable pub is_truth : Value → Bool
is_truth (truth b) = true
is_truth _ = false

-- Python's bool is an int.
unfoldable pub is_int_or_none : Value → Bool
is_int_or_none null = true
is_int_or_none (truth b) = true
is_int_or_none (whole z) = true
is_int_or_none _ = false

unfoldable pub is_bool_or_none : Value → Bool
is_bool_or_none null = true
is_bool_or_none (truth b) = true
is_bool_or_none _ = false

unfoldable pub is_float : Value → Bool
is_float (real z) = true
is_float _ = false

unfoldable pub is_float_or_none : Value → Bool
is_float_or_none null = true
is_float_or_none (real z) = true
is_float_or_none _ = false

unfoldable pub is_texts : Value → Bool
is_texts (texts ts) = true
is_texts _ = false

unfoldable pub is_dict : Value → Bool
is_dict dict = true
is_dict _ = false

unfoldable pub as_words : Value → Text
as_words (words t) = t
as_words _ = []

unfoldable pub as_truth : Value → Bool
as_truth (truth b) = b
as_truth _ = false

unfoldable pub as_int : Value → Option ℤ
as_int (whole z) = some z
as_int (truth b) = some (if b then pos 1 else pos 0)
as_int _ = none

unfoldable pub as_bool : Value → Option Bool
as_bool (truth b) = some b
as_bool _ = none

unfoldable pub as_float : Value → ℤ
as_float (real z) = z
as_float _ = pos 0

unfoldable pub as_interval : Value → Option ℕ
as_interval (real z) = some (pos_part z)
as_interval _ = none

unfoldable pub as_texts : Value → List Text
as_texts (texts ts) = ts
as_texts _ = []

abbrev field : {O : Type 0} → Text → (Value → Bool) → (Value → O → O) → Field O
field n f a = record { name = n; fits = f; assign = a }

abbrev unread : Value → ModelConfig → ModelConfig
unread v m = m

-- BACKEND_SETTABLE
abbrev pub backend_fields : List (Field BackendConfig)
backend_fields =
    field provider_name is_words (λ v b. record b { provider = as_words v })
    ∷ field model_name is_words (λ v b. record b { model = as_words v })
    ∷ field enabled_name is_truth (λ v b. record b { enabled = as_truth v })
    ∷ field context_length_name is_int_or_none (λ v b. record b { context_length = as_int v })
    ∷ field max_output_tokens_name is_int_or_none (λ v b. record b { max_output_tokens = as_int v })
    ∷ field cache_supported_name is_bool_or_none (λ v b. record b { cache_supported = as_bool v })
    ∷ field weight_name is_float (λ v b. record b { weight = as_float v })
    ∷ []

-- MODEL_SETTABLE
abbrev pub model_fields : List (Field ModelConfig)
model_fields =
    field description_name is_words unread
    ∷ field context_length_name is_int_or_none (λ v m. record m { context_length = as_int v })
    ∷ field enabled_name is_truth (λ v m. record m { enabled = as_truth v })
    ∷ field capabilities_name is_dict unread
    ∷ field modality_name is_words unread
    ∷ field max_output_tokens_name is_int_or_none (λ v m. record m { max_output_tokens = as_int v })
    ∷ field tags_name is_texts unread
    ∷ field aliases_name is_texts (λ v m. record m { aliases = as_texts v })
    ∷ field default_params_name is_dict unread
    ∷ field display_name_name is_words unread
    ∷ field avatar_name is_words unread
    ∷ field probe_interval_s_name is_float_or_none
        (λ v m. record m { probe_interval_s = as_interval v })
    ∷ field cache_responses_name is_truth (λ v m. record m { cache_responses = as_truth v })
    ∷ field endpoint_name is_words (λ v m. record m { endpoint = as_words v })
    ∷ []
