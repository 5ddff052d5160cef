-- ===== src/Embeddings/Asked.antt =====
-- Which requests for embeddings change the gateway.
use local_gateway.Prelude.{
  if◌then◌else◌, Bool-cases, Option-cases, ◌==◌, nat_eq, int_eq, Text, text_eq, is_empty, ℕ, ◌≡◌,
  refl, ap, ◌∙◌, ◌⊎◌, inl, inr, Bool, true, false, not, Option, none, some, List, [],
}
use local_gateway.Dict.{Dict}
use local_gateway.Config.{GatewayConfig, ModelConfig, ApiKeyConfig, model_by_id}
use local_gateway.Provider.{Exchange}
use local_gateway.Router.Types.{World, Prefs, Selected}
use local_gateway.Router.Selection.{select_backends}
use local_gateway.Streaming.{Gateway, Attempt}
use local_gateway.Streaming.Fallback.{is_final, attempts, upto}
use local_gateway.Embeddings.{
  Job, Answer, embed, embeddings, excludes, answer_found, create_embeddings, answered,
  model_not_found, wrong_endpoint, not_allowed, signed, Response,
}
use local_gateway.Embeddings.Verdict.{embed-verdict, settle_all}

-- The attempts of a request for a model.
unfoldable pub tried :
    World
    → Job
    → (ℕ → Selected → Exchange)
    → GatewayConfig
    → Prefs
    → Dict Text ℕ
    → ModelConfig
    → List Attempt
tried w j send config prefs rr m =
    upto (is_final j.request)
      (attempts send 0 (select_backends w config m.id none (signed j.input_tokens) prefs none rr).0)

-- A request that leaves the gateway as it was, or is for a model that is on and has the endpoint.
answer_found-cases :
    (w : World) (job : ModelConfig → Job) (send : ℕ → Selected → Exchange) (config : GatewayConfig)
    (prefs : Prefs) (rr : Dict Text ℕ) (g : Gateway) (m : ModelConfig)
    → ((answer_found w job send config prefs rr g (some m)).0 ≡ g)
      ⊎ (m.enabled ≡ true)
        × ((m.endpoint == embeddings) ≡ true)
        × ((answer_found w job send config prefs rr g (some m)).0
            ≡ settle_all (job m) (tried w (job m) send config prefs rr m) g)
unfolding answer_found tried
answer_found-cases w job send config prefs rr g m =
    let j = job m in
    let routed = select_backends w config m.id none (signed j.input_tokens) prefs none rr in
    let done = embed j send 0 routed.0 [] g in
    let pick : Bool → Bool → Bool → Gateway = λ on fits bare.
      let r : Gateway × Answer × Dict Text ℕ =
        (if not on
          then (g, model_not_found, rr)
          else if not fits
          then (g, wrong_endpoint, rr)
          else if bare
          then (g, model_not_found, routed.1)
          else (done.0, answered done.1, routed.1)) in
      r.0 in
    let bare = is_empty routed.0 in
    elim (Bool-cases m.enabled) [
      | inr off ↦ inl (ap (λ b. pick b (m.endpoint == embeddings) bare) off)
      | inl on ↦ elim (Bool-cases (m.endpoint == embeddings)) [
        | inr wrong ↦
            inl (
              ap (λ b. pick b (m.endpoint == embeddings) bare) on
              ∙ ap (λ b. pick true b bare) wrong)
        | inl right ↦ elim (Bool-cases bare) [
          | inl none_left ↦ inl (
              ap (λ b. pick b (m.endpoint == embeddings) bare) on
              ∙ ap (λ b. pick true b bare) right
              ∙ ap (pick true true) none_left)
          | inr some_left ↦ inr (
            on,
            right,
            ap (λ b. pick b (m.endpoint == embeddings) bare) on
                ∙ ap (λ b. pick true b bare) right
                ∙ ap (pick true true) some_left
                ∙ ap (λ (r : Gateway × Response). r.0) (embed-verdict j send 0 routed.0 [] g),
          )
        ]
      ]
    ]

-- A request for embeddings leaves the gateway's counters, circuits, cooldowns and log as they are, or its
-- key may use the model, the model is on and has the endpoint `embeddings`, and exactly the attempts
-- up to the first final one are noted.
pub create_embeddings-asked :
    (w : World) (job : ModelConfig → Job) (send : ℕ → Selected → Exchange) (config : GatewayConfig)
    (key : Option ApiKeyConfig) (requested : Text) (prefs : Prefs) (rr : Dict Text ℕ) (g : Gateway)
    → ((create_embeddings w job send config key requested prefs rr g).0 ≡ g)
      ⊎ (m : ModelConfig) × (model_by_id config requested ≡ some m)
        × (excludes key config requested ≡ false)
        × (m.enabled ≡ true)
        × ((m.endpoint == embeddings) ≡ true)
        × ((create_embeddings w job send config key requested prefs rr g).0
            ≡ settle_all (job m) (tried w (job m) send config prefs rr m) g)
unfolding create_embeddings
create_embeddings-asked w job send config key requested prefs rr g =
    let found = answer_found w job send config prefs rr g in
    let pick : Bool → Option ModelConfig → Gateway = λ b o.
      let r : Gateway × Answer × Dict Text ℕ = (if b then (g, not_allowed, rr) else found o) in
      r.0 in
    elim (Bool-cases (excludes key config requested)) [
      | inl out ↦ inl (ap (λ b. pick b (model_by_id config requested)) out)
      | inr allowed ↦ elim (Option-cases (model_by_id config requested)) [
        | inl missing ↦ inl (
            ap (λ b. pick b (model_by_id config requested)) allowed
            ∙ ap (pick false) missing
            ∙ unfold answer_found in refl)
        | inr (m, is_m) ↦
            let step =
              ap (λ b. pick b (model_by_id config requested)) allowed ∙ ap (pick false) is_m in
            elim (answer_found-cases w job send config prefs rr g m) [
              | inl same ↦ inl (step ∙ same)
              | inr (on, right, noted) ↦ inr (m, is_m, allowed, on, right, step ∙ noted)
            ]
      ]
    ]
