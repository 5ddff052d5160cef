-- ===== src/Admin.antt =====
-- localgateway/endpoints/admin.py: the handlers that change the configuration. `load_config` gives the
-- shared object, so a handler that refuses may leave it changed; a body is what pydantic and the tests
-- of the handler make of it.
pub mod Answers
pub mod Keys
pub mod Backups
pub mod Models
pub mod Edits
pub mod Slots
pub mod Rename
use local_gateway.Prelude.{nat_eq, int_eq, Text, text_eq, ℕ, ◌+◌, some, [], arith}
use local_gateway.Config.{GatewayConfig}
use local_gateway.Config.Files.{Disk, Loaded, save_config}

-- What a handler does: `save_config` with the object, or an answer with a status, and the object as it is
-- then.
pub data Outcome : Type 0 where
  saved : GatewayConfig → Outcome
  refused : ℕ → GatewayConfig → Outcome

-- The shared object after a handler.
unfoldable pub config_after : Outcome → GatewayConfig
config_after (saved config) = record config { version = config.version + 1 }
config_after (refused status config) = config

-- The files and the module's state after it.
unfoldable pub commit : (GatewayConfig → Text) → ℕ → Outcome → Disk × Loaded → Disk × Loaded
commit dump now (saved config) s = save_config dump config now s
commit dump now (refused status config) (d, l) = (d, record l { config = some config })
