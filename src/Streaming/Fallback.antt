-- ===== src/Streaming/Fallback.antt =====
-- The answer of the fallback loop of streaming.py, from the attempts that it could make.
use local_gateway.Prelude.{
  eqb, if◌then◌else◌, Bool-cases, nat_eq, int_eq, Text, text_eq, ℕ, suc, ◌≡◌, refl, sym, ap, ◌∙◌,
  inl, inr, Bool, true, false, not, Option, none, some, List, [], ◌∷◌, ◌++◌, map,
}
use mathlib.Core.List.{append-nil}
use local_gateway.Router.Types.{Selected}
use local_gateway.Provider.{Usage, Exchange, Reply, answered, timed_out, raised, result_of, failure}
use local_gateway.Streaming.{
  Gateway, Request, Response, served, refused, all_failed, Attempt, provider_of, model_of, result,
  body_of, exchange_with, note_served, note_failed, error_line, try_backends,
}

-- An attempt that ends the loop: its result is not to be tried again elsewhere.
unfoldable pub is_final : Request → Attempt → Bool
is_final q a = not (result q a).retryable

unfoldable pub attempts : (ℕ → Selected → Exchange) → ℕ → List Selected → List Attempt
attempts send n [] = []
attempts send n (s ∷ rest) =
    record { selected = s; exchange = send n s } ∷ attempts send (suc n) rest

unfoldable pub first : (Attempt → Bool) → List Attempt → Option Attempt
first p [] = none
first p (a ∷ rest) = if p a then some a else first p rest

-- The attempts up to the first final one, which is included.
unfoldable pub upto : (Attempt → Bool) → List Attempt → List Attempt
upto p [] = []
upto p (a ∷ rest) = a ∷ (if p a then [] else upto p rest)

-- The answer to a final attempt.
unfoldable pub answer : Request → Attempt → Response
answer q a =
    if (result q a).success
    then served (body_of q a) (provider_of a) (model_of a) a.selected.reason
    else refused (result q a).error (result q a).status_code

unfoldable pub choose : Request → Response → Option Attempt → Response
choose q otherwise none = otherwise
choose q otherwise (some a) = answer q a

unfoldable pub verdict : Request → List Text → List Attempt → Response
verdict q errors tried =
    choose q (all_failed (errors ++ map (error_line q) tried)) (first (is_final q) tried)

-- What an attempt does to the state.
unfoldable pub settle : Request → Attempt → Gateway → Gateway
settle q a g =
    if (result q a).success
    then note_served q a (exchange_with a g)
    else note_failed q a (exchange_with a g)

unfoldable pub settle_all : Request → List Attempt → Gateway → Gateway
settle_all q [] g = g
settle_all q (a ∷ rest) g = settle_all q rest (settle q a g)

-- A result names its backend, and a success is final.
result_of-names :
    (str : ℕ → Text) (extract : Text → Usage) (p m : Text) (latency : ℕ) (reply : Reply)
    → ((result_of str extract p m latency reply).provider_id ≡ p)
      × ((result_of str extract p m latency reply).backend_model ≡ m)
      × ((result_of str extract p m latency reply).success ≡ true
          → (result_of str extract p m latency reply).retryable ≡ false)
unfolding result_of failure
result_of-names str extract p m latency (answered status retry_after body) =
    elim (Bool-cases (eqb status 200)) [
      | inl good ↦ rw good (refl, refl, λ h. refl)
      | inr bad ↦ rw bad (refl, refl, λ h. cc)
    ]
result_of-names str extract p m latency timed_out = (refl, refl, λ h. cc)
result_of-names str extract p m latency (raised text) = (refl, refl, λ h. cc)

pub result-names :
    (q : Request) (a : Attempt)
    → ((result q a).provider_id ≡ provider_of a)
      × ((result q a).backend_model ≡ model_of a)
      × ((result q a).success ≡ true → (result q a).retryable ≡ false)
unfolding result
result-names q a =
    result_of-names q.str q.extract (provider_of a) (model_of a) a.exchange.latency_ms
      a.exchange.reply

pub append_cons : (xs : List Text) (x : Text) (ys : List Text) → (xs ++ x ∷ []) ++ ys ≡ xs ++ x ∷ ys
append_cons [] x ys = refl
append_cons (y ∷ xs) x ys = ap (λ l. y ∷ l) (append_cons xs x ys)

verdict-nil : (q : Request) (errors : List Text) → verdict q errors [] ≡ all_failed errors
unfolding verdict first choose
verdict-nil q errors = ap all_failed (append-nil errors)

verdict-tried :
    (q : Request) (errors : List Text) (a : Attempt) (rest : List Attempt)
    → verdict q errors (a ∷ rest)
      ≡ (if is_final q a then answer q a else verdict q (errors ++ error_line q a ∷ []) rest)
unfolding verdict first choose
verdict-tried q errors a rest = elim (Bool-cases (is_final q a)) [
  | inl final ↦ rw final refl
  | inr again ↦ rw again (
      ap (λ l. choose q (all_failed l) (first (is_final q) rest))
        (sym (append_cons errors (error_line q a) (map (error_line q) rest))))
]

pub settle-served :
    (q : Request) (a : Attempt) (g : Gateway)
    → (result q a).success ≡ true
    → settle q a g ≡ note_served q a (exchange_with a g)
unfolding settle
settle-served q a g good = rw good refl

pub settle-failed :
    (q : Request) (a : Attempt) (g : Gateway)
    → (result q a).success ≡ false
    → settle q a g ≡ note_failed q a (exchange_with a g)
unfolding settle
settle-failed q a g bad = rw bad refl

-- The loop gives the answer to the first attempt whose result is not to be tried elsewhere, and where
-- there is none the errors of all backends, in order. It makes the attempts up to that one, no more.
pub try_backends-verdict :
    (q : Request) (send : ℕ → Selected → Exchange) (n : ℕ) (sels : List Selected)
    (errors : List Text) (g : Gateway)
    → try_backends q send n sels errors g ≡ (
      settle_all q (upto (is_final q) (attempts send n sels)) g,
      verdict q errors (attempts send n sels),
    )
unfolding try_backends attempts upto settle_all answer is_final
try_backends-verdict q send n [] errors g = ap (λ r. (g, r)) (sym (verdict-nil q errors))
try_backends-verdict q send n (s ∷ rest) errors g =
    let a : Attempt = record { selected = s; exchange = send n s } in
    let failed = note_failed q a (exchange_with a g) in
    let names = result-names q a in
    let later = try_backends-verdict q send (suc n) rest (errors ++ error_line q a ∷ []) failed in
    elim (Bool-cases (result q a).success) [
      | inl good ↦
          rw
            (
              verdict-tried q errors a (attempts send (suc n) rest),
              good,
              names.2 good,
              names.0,
              names.1,
            )
            (ap (λ h. (h, served (body_of q a) (provider_of a) (model_of a) s.reason))
              (sym (settle-served q a g good)))
      | inr bad ↦ elim (Bool-cases (result q a).retryable) [
        | inl again ↦
            rw (verdict-tried q errors a (attempts send (suc n) rest), bad, again)
              (later
                ∙ ap
                    (λ h. (
                      settle_all q (upto (is_final q) (attempts send (suc n) rest)) h,
                      verdict q (errors ++ error_line q a ∷ []) (attempts send (suc n) rest),
                    ))
                    (sym (settle-failed q a g bad)))
        | inr final ↦
            rw (verdict-tried q errors a (attempts send (suc n) rest), bad, final)
              (ap (λ h. (h, refused (result q a).error (result q a).status_code))
                (sym (settle-failed q a g bad)))
      ]
    ]
