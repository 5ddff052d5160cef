-- ===== src/Supervisor/Gate.antt =====
-- localgateway/supervisor.py: the middlewares in front of the pages, the admin endpoints and the proxy
-- of the worker. `netloc` is that of `urlparse`, none where it raises. The middleware that is added
-- last comes first.
use local_gateway.Prelude.{
  if◌then◌else◌, ◌==◌, nat_eq, int_eq, Text, text_eq, is_empty, Bool, true, false, not, ◌&&◌,
  Option, none, some, [], ◌∷◌,
}
use local_gateway.Config.{GatewayConfig}
use local_gateway.Auth.{
  check_api_key, resolve_api_key, is_admin_path, is_api_path, asks_key, is_some, starts_with,
  admin_prefix,
}
use local_gateway.Worker.{Request as WorkerRequest}

pub data Method : Type 0 where
  get head options post put delete patch : Method

-- Headers that are not sent are empty.
pub record Request : Type 0 where
  pub method : Method
  pub path : Text
  pub authorization : Text
  pub origin : Text
  pub referer : Text
  pub host_header : Text
  pub peer : Option Text

pub data Reply : Type 0 where
  -- The route is called.
  routed : Reply
  -- 401
  unauthorized : Reply
  -- 403
  foreign_origin : Reply

-- `request.method not in ("GET", "HEAD", "OPTIONS")`
unfoldable pub mutates : Method → Bool
mutates get = false
mutates head = false
mutates options = false
mutates _ = true

unfoldable pub origin_of : Request → Text
origin_of r = if is_empty r.origin then r.referer else r.origin

-- `o.netloc and o.netloc != host`
unfoldable pub is_foreign : Option Text → Text → Bool
is_foreign none host = false
is_foreign (some netloc) host = not (is_empty netloc) && not (netloc == host)

unfoldable pub origin_guard : (Text → Option Text) → Request → Reply → Reply
origin_guard netloc r next =
    if mutates r.method
      && (starts_with admin_prefix r.path
          && (is_empty r.authorization
              && (not (is_empty (origin_of r)) && is_foreign (netloc (origin_of r)) r.host_header)))
    then foreign_origin
    else next

module _ (strip : Text → Text) (loopback : Text → Option Bool) where
  unfoldable pub admin_auth_middleware : GatewayConfig → Request → Reply → Reply
  admin_auth_middleware config r next =
      if is_admin_path r.path && not (check_api_key strip loopback r.authorization r.peer config)
      then unauthorized
      else next

  unfoldable pub api_auth_middleware : GatewayConfig → Request → Reply → Reply
  api_auth_middleware config r next =
      if is_admin_path r.path
      then next
      else if is_api_path r.path
          && (asks_key config && not (is_some (resolve_api_key strip r.authorization config)))
      then unauthorized
      else next

  unfoldable pub gate : (Text → Option Text) → GatewayConfig → Request → Reply
  gate netloc config r =
      api_auth_middleware config r (origin_guard netloc r (admin_auth_middleware config r routed))

abbrev pub worker_host : Text
worker_host = b'1' ∷ b'2' ∷ b'7' ∷ b'.' ∷ b'0' ∷ b'.' ∷ b'0' ∷ b'.' ∷ b'1' ∷ []

-- A request as the proxy sends it on: its peer is the supervisor.
unfoldable pub proxied : Request → WorkerRequest
proxied r = record { path = r.path; authorization = r.authorization; host = some worker_host }
