-- ===== src/Admin/Models.antt =====
-- localgateway/endpoints/admin.py: the handlers that change models and their backends. A body is what
-- pydantic makes of it, none where it is refused.
pub mod Tiers
pub mod Lists
use local_gateway.Prelude.{
  ltb, if◌then◌else◌, ℤ, pos, pos_part, ◌+ℤ◌, ltb_ℤ, ◌==◌, nat_eq, int_eq, Text, text_eq, contains,
  length, is_empty, any, sort_by, concat_map, ℕ, zero, suc, Bool, not, ◌&&◌, Option, none, some,
  List, [], ◌∷◌, ◌++◌, arith,
}
use local_gateway.Config.{GatewayConfig, ModelConfig, BackendConfig, TimeRoutingConfig, model_by_id}
use local_gateway.Admin.{Outcome, saved, refused}

-- The model that the lookup found is changed in place: by its id, or else by an alias.
unfoldable pub has_model : Text → List ModelConfig → Bool
has_model i = any (λ m. m.id == i)

unfoldable pub change_model :
    (ModelConfig → Bool) → (ModelConfig → ModelConfig) → List ModelConfig → List ModelConfig
change_model found f [] = []
change_model found f (m ∷ ms) = if found m then f m ∷ ms else m ∷ change_model found f ms

unfoldable pub finds : Text → List ModelConfig → ModelConfig → Bool
finds i ms m = if has_model i ms then m.id == i else contains i m.aliases

abbrev pub with_models : GatewayConfig → List ModelConfig → GatewayConfig
with_models config models = record config { models = models }

-- The object after a handler has changed the model that it found.
unfoldable pub change_found : Text → (ModelConfig → ModelConfig) → GatewayConfig → GatewayConfig
change_found model_id f config =
    with_models config (change_model (finds model_id config.models) f config.models)

-- Once the id is looked up: the model that has it, and the new one.
unfoldable pub append_model : Option ModelConfig → Option ModelConfig → GatewayConfig → Outcome
append_model (some taken) parsed config = refused 409 config
append_model none none config = refused 422 config
append_model none (some m) config = saved (with_models config (config.models ++ m ∷ []))

-- `POST /admin/models`: the id of the body after `strip()`, and the body.
unfoldable pub create_model : Text → Option ModelConfig → GatewayConfig → Outcome
create_model model_id parsed config =
    if is_empty model_id
    then refused 422 config
    else append_model (model_by_id config model_id) parsed config

unfoldable pub without_first : (ModelConfig → Bool) → List ModelConfig → List ModelConfig
without_first p [] = []
without_first p (m ∷ ms) = if p m then ms else m ∷ without_first p ms

unfoldable pub delete_model : Text → GatewayConfig → Outcome
delete_model model_id config =
    if has_model model_id config.models
    then saved (with_models config (without_first (λ m. m.id == model_id) config.models))
    else refused 404 config

-- sorted(all_indices) == list(range(n))
unfoldable pub range_from : ℕ → ℕ → List ℕ
range_from i zero = []
range_from i (suc n) = i ∷ range_from (suc i) n

unfoldable pub covers : List (List ℕ) → ℕ → Bool
covers tiers n = sort_by ltb (concat_map (λ t. t) tiers) == range_from 0 n

unfoldable pub set_priority : ℕ → ℕ → List BackendConfig → List BackendConfig
set_priority idx tier_num [] = []
set_priority zero tier_num (b ∷ bs) = record b { priority = pos tier_num } ∷ bs
set_priority (suc idx) tier_num (b ∷ bs) = b ∷ set_priority idx tier_num bs

unfoldable pub set_tier : ℕ → List ℕ → List BackendConfig → List BackendConfig
set_tier tier_num [] bs = bs
set_tier tier_num (idx ∷ idxs) bs = set_tier tier_num idxs (set_priority idx tier_num bs)

-- for tier_num, tier_indices in enumerate(tiers, start)
unfoldable pub set_tiers : ℕ → List (List ℕ) → List BackendConfig → List BackendConfig
set_tiers tier_num [] bs = bs
set_tiers tier_num (t ∷ ts) bs = set_tiers (suc tier_num) ts (set_tier tier_num t bs)

abbrev pub with_backends : (List BackendConfig → List BackendConfig) → ModelConfig → ModelConfig
with_backends f m = record m { backends = f m.backends }

unfoldable pub set_tiers_of : Text → List (List ℕ) → GatewayConfig → Option ModelConfig → Outcome
set_tiers_of model_id tiers config none = refused 404 config
set_tiers_of model_id tiers config (some model) =
    if covers tiers (length model.backends)
    then saved (change_found model_id (with_backends (set_tiers 1 tiers)) config)
    else refused 422 config

-- `PUT /admin/models/{model_id}/backends/tiers`, where the body holds lists of indices.
unfoldable pub set_backends_tiers : Text → List (List ℕ) → GatewayConfig → Outcome
set_backends_tiers model_id tiers config =
    set_tiers_of model_id tiers config (model_by_id config model_id)

-- max((b.priority for b in backends), default=0)
unfoldable pub max_priority : List BackendConfig → ℤ
max_priority [] = pos 0
max_priority (b ∷ []) = b.priority
max_priority (b ∷ c ∷ bs) =
    let rest = max_priority (c ∷ bs) in if ltb_ℤ b.priority rest then rest else b.priority

unfoldable pub append_backend : BackendConfig → List BackendConfig → List BackendConfig
append_backend b bs = bs ++ record b { priority = max_priority bs +ℤ pos 1 } ∷ []

unfoldable pub add_backend : Text → Option BackendConfig → GatewayConfig → Outcome
add_backend model_id parsed config = elim (model_by_id config model_id) [
  | none ↦ refused 404 config
  | some model ↦ elim parsed [
    | none ↦ refused 422 config
    | some b ↦ saved (change_found model_id (with_backends (append_backend b)) config)
  ]
]

unfoldable pub pop : ℕ → List BackendConfig → List BackendConfig
pop n [] = []
pop zero (b ∷ bs) = bs
pop (suc n) (b ∷ bs) = b ∷ pop n bs

-- for i, b in enumerate(backends): b.priority = i + 1
unfoldable pub renumber : ℕ → List BackendConfig → List BackendConfig
renumber i [] = []
renumber i (b ∷ bs) = record b { priority = pos (suc i) } ∷ renumber (suc i) bs

-- index < 0 or index >= len(model.backends)
unfoldable pub is_index : ℤ → List BackendConfig → Bool
is_index index bs = not (ltb_ℤ index (pos 0)) && ltb_ℤ index (pos (length bs))

unfoldable pub remove_backend : Text → ℤ → GatewayConfig → Outcome
remove_backend model_id index config = elim (model_by_id config model_id) [
  | none ↦ refused 404 config
  | some model ↦
      if is_index index model.backends
      then saved (
          change_found model_id (with_backends (λ bs. renumber 0 (pop (pos_part index) bs))) config)
      else refused 400 config
]

unfoldable pub put_time_routing : Text → Option TimeRoutingConfig → GatewayConfig → Outcome
put_time_routing model_id parsed config = elim (model_by_id config model_id) [
  | none ↦ refused 404 config
  | some model ↦ elim parsed [
    | none ↦ refused 422 config
    | some r ↦ saved (change_found model_id (λ m. record m { time_routing = r }) config)
  ]
]
