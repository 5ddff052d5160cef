-- ===== src/Streaming/Cost.antt =====
-- The cost of a request, by streaming.py.
use local_gateway.Prelude.{
  nat_eq, int_eq, Text, text_eq, ℕ, zero, suc, ◌+◌, ◌-◌, ◌*◌, ◌≤◌, ◌≡◌, refl, ap, ◌∙◌, some, arith,
}
use local_gateway.Config.{GatewayConfig, pricing_for}
use local_gateway.Provider.{Usage}
use local_gateway.Streaming.{price_or, or_zero, cost_of, compute_cost}

times_mono : (n a b : ℕ) → a ≤ b → n * a ≤ n * b
times_mono zero a b h = omega arith
times_mono (suc n) a b h = omega (arith, times_mono n a b h)

plus_times : (m n a : ℕ) → (m + n) * a ≡ m * a + n * a
plus_times zero n a = omega arith
plus_times (suc m) n a = omega (arith, plus_times m n a)

-- Input of which parts are charged at lower prices.
split_cost :
    (input cached written price read write : ℕ)
    → cached + written ≤ input
    → read ≤ price
    → write ≤ price
    → (input - cached - written) * price + cached * read + written * write ≤ input * price
split_cost input cached written price read write inside hr hw =
    let rest = input - cached - written in
    let whole : input ≡ rest + cached + written = omega arith in
    let e : input * price ≡ rest * price + cached * price + written * price =
      ap (λ n. n * price) whole
      ∙ plus_times (rest + cached) written price
      ∙ ap (λ n. n + written * price) (plus_times rest cached price) in
    omega (arith, e, times_mono cached read price hr, times_mono written write price hw)

-- Where no cache price is above the price of input, and the cached and written tokens are inside the
-- input, a request costs at most its input and output at their prices.
pub compute_cost-bounded :
    (config : GatewayConfig) (p m : Text) (u : Usage) (input output : ℕ)
    → u.input_tokens ≡ some input
    → u.output_tokens ≡ some output
    → or_zero u.cached_tokens + or_zero u.cache_write_tokens ≤ input
    → price_or (pricing_for config p m).input (pricing_for config p m).cache_read
      ≤ (pricing_for config p m).input
    → price_or (pricing_for config p m).input (pricing_for config p m).cache_write
      ≤ (pricing_for config p m).input
    → (cost : ℕ) × (compute_cost config p m u ≡ some cost)
      × (cost ≤ input * (pricing_for config p m).input + output * (pricing_for config p m).output)
unfolding compute_cost cost_of
compute_cost-bounded config p m u input output hi ho inside hr hw =
    let pricing = pricing_for config p m in
    let cached = or_zero u.cached_tokens in
    let written = or_zero u.cache_write_tokens in
    let part =
      split_cost input cached written pricing.input (price_or pricing.input pricing.cache_read)
        (price_or pricing.input pricing.cache_write) inside hr hw in
    (cost_of pricing input output cached written, rw (hi, ho) refl, omega (arith, part))
