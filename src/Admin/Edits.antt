-- ===== src/Admin/Edits.antt =====
-- localgateway/endpoints/admin.py: `_apply_fields`, and the updates of models and backends by it. A body
-- is a dict of JSON values, told apart as far as the types of the fields do; floats are thousandths. Of
-- the fields that the configuration leaves out only the type is looked at. Lists hold texts, and an
-- interval is not negative.
pub mod Fields
pub mod Accepted
use local_gateway.Prelude.{
  if◌then◌else◌, ℤ, pos_part, nat_eq, int_eq, Text, text_eq, contains, any, ℕ, zero, suc, Bool,
  true, false, not, Option, none, some, List, [], ◌∷◌, map, arith,
}
use local_gateway.Dict.{Dict, get, remove, keys}
use local_gateway.Config.{GatewayConfig, ModelConfig, BackendConfig, TimeRoutingConfig, model_by_id}
use local_gateway.Admin.{Outcome, saved, refused}
use local_gateway.Admin.Edits.Fields.{Value, Field, backend_fields, model_fields, time_routing_name}
use local_gateway.Admin.Models.{change_found, is_index}

abbrev pub Body : Type 0
Body = Dict Text Value

module _ {O : Type 0} where
  -- One turn of the loop: the object, and whether the field is not refused.
  unfoldable pub apply_one : Field O → Option Value → O → O × Bool
  apply_one f none obj = (obj, true)
  apply_one f (some v) obj = if f.fits v then (f.assign v obj, true) else (obj, false)

  -- The loop over the whitelist: the object as it is at the end, and whether no field was refused.
  unfoldable pub apply_each : List (Field O) → Body → O → O × Bool
  apply_each [] body obj = (obj, true)
  apply_each (f ∷ fs) body obj =
      let turn = apply_one f (get f.name body) obj in
      let rest = apply_each fs body turn.0 in if turn.1 then rest else turn

  unfoldable pub has_unknown : List (Field O) → Body → Bool
  has_unknown fs body = any (λ k. not (contains k (map (λ f. f.name) fs))) (keys body)

  unfoldable pub apply_fields : List (Field O) → Body → O → O × Bool
  apply_fields fs body obj = if has_unknown fs body then (obj, false) else apply_each fs body obj

-- What a handler does with the object that `_apply_fields` leaves.
unfoldable pub settle : Bool → GatewayConfig → Outcome
settle true config = saved config
settle false config = refused 422 config

unfoldable pub update_at :
    (BackendConfig → BackendConfig) → ℕ → List BackendConfig → List BackendConfig
update_at f n [] = []
update_at f zero (b ∷ bs) = f b ∷ bs
update_at f (suc n) (b ∷ bs) = b ∷ update_at f n bs

unfoldable pub backend_at : ℕ → List BackendConfig → Option BackendConfig
backend_at n [] = none
backend_at zero (b ∷ bs) = some b
backend_at (suc n) (b ∷ bs) = backend_at n bs

unfoldable pub update_found : Text → ℕ → Body → GatewayConfig → Option BackendConfig → Outcome
update_found model_id n body config none = refused 400 config
update_found model_id n body config (some b) =
    let (b', accepted) = apply_fields backend_fields body b in
    settle accepted
      (change_found model_id (λ m. record m { backends = update_at (λ c. b') n m.backends }) config)

unfoldable pub update_in : Text → ℤ → Body → GatewayConfig → Option ModelConfig → Outcome
update_in model_id index body config none = refused 404 config
update_in model_id index body config (some m) =
    if is_index index m.backends
    then update_found model_id (pos_part index) body config (backend_at (pos_part index) m.backends)
    else refused 400 config

-- `PUT /admin/models/{model_id}/backends/{index}`
unfoldable pub update_backend : Text → ℤ → Body → GatewayConfig → Outcome
update_backend model_id index body config =
    update_in model_id index body config (model_by_id config model_id)

-- The time routing of the body: none where it has none, or what pydantic makes of it.
unfoldable pub update_routed :
    Text → Body → Option (Option TimeRoutingConfig) → GatewayConfig → Option ModelConfig → Outcome
update_routed model_id body routing config none = refused 404 config
update_routed model_id body (some none) config (some m) = refused 422 config
update_routed model_id body none config (some m) =
    let (m', accepted) = apply_fields model_fields (remove time_routing_name body) m in
    settle accepted (change_found model_id (λ x. m') config)
update_routed model_id body (some (some r)) config (some m) =
    let (m', accepted) =
      apply_fields model_fields (remove time_routing_name body) (record m { time_routing = r }) in
    settle accepted (change_found model_id (λ x. m') config)

-- `PUT /admin/models/{model_id}`
unfoldable pub update_model :
    Text → Body → Option (Option TimeRoutingConfig) → GatewayConfig → Outcome
update_model model_id body routing config =
    update_routed model_id body routing config (model_by_id config model_id)
