-- ===== src/Backend.antt =====
-- The key of a backend, `f"{provider_id}:{model}"`, of localgateway/circuitbreaker.py (`_key`),
-- localgateway/ratelimit.py, localgateway/stats.py (`_key`) and localgateway/router.py.
use local_gateway.Prelude.{
  nat_eq, int_eq, Text, text_eq, contains, ℕ, ◌≡◌, false, [], ◌∷◌, ◌++◌, arith,
}

abbrev pub colon : ℕ
colon = b':'

unfoldable pub backend_key : Text → Text → Text
backend_key provider_id model = provider_id ++ (colon ∷ model)

-- Provider ids without a colon are told apart by the keys, and so are the models.
pub backend_key_injective :
    (p q m n : Text)
    → contains colon p ≡ false
    → contains colon q ≡ false
    → backend_key p m ≡ backend_key q n
    → (p ≡ q) × (m ≡ n)
unfolding backend_key contains
backend_key_injective [] [] m n hp hq e = ground arith
backend_key_injective [] (c ∷ q) m n hp hq e = absurd (ground arith)
backend_key_injective (c ∷ p) [] m n hp hq e = absurd (ground arith)
backend_key_injective (c ∷ p) (d ∷ q) m n hp hq e = ground (arith, backend_key_injective p q m n)
