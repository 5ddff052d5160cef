-- ===== src/Admin/Answers.antt =====
-- The answers of the admin handlers are told apart.
use local_gateway.Prelude.{nat_eq, int_eq, text_eq, ℕ, ◌≡◌, ap, ◌≢◌}
use local_gateway.Config.{GatewayConfig}
use local_gateway.Admin.{saved, refused}

pub saved_injective : (c d : GatewayConfig) → saved c ≡ saved d → c ≡ d
saved_injective c d h = ap (λ o. elim o [ saved x ↦ x | refused s x ↦ c ]) h

pub refused_saved : (s : ℕ) (c d : GatewayConfig) → saved d ≢ refused s c
refused_saved s c d h = cc
