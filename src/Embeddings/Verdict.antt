-- ===== src/Embeddings/Verdict.antt =====
-- The answer of the fallback loop of embeddings.py.
use local_gateway.Prelude.{
  if◌then◌else◌, Bool-cases, nat_eq, int_eq, Text, text_eq, ℕ, suc, ◌≡◌, refl, sym, ap, ◌∙◌, inl,
  inr, true, false, Option, none, some, List, [], ◌∷◌, ◌++◌, map,
}
use mathlib.Core.List.{append-nil}
use local_gateway.Router.Types.{Selected}
use local_gateway.Provider.{Exchange}
use local_gateway.Streaming.{
  Gateway, Response, served, refused, all_failed, Attempt, provider_of, model_of, result,
  exchange_with, error_line,
}
use local_gateway.Streaming.Fallback.{is_final, attempts, first, upto, result-names, append_cons}
use local_gateway.Embeddings.{Job, note_embedded, note_refused, embed}

-- The answer to a final attempt, and to attempts that may have none.
unfoldable pub answer : Job → Attempt → Response
answer j a =
    if (result j.request a).success
    then served (result j.request a).body (provider_of a) (model_of a) a.selected.reason
    else refused (result j.request a).error (result j.request a).status_code

unfoldable pub choose : Job → Response → Option Attempt → Response
choose j otherwise none = otherwise
choose j otherwise (some a) = answer j a

unfoldable pub verdict : Job → List Text → List Attempt → Response
verdict j errors tried =
    choose j (all_failed (errors ++ map (error_line j.request) tried))
      (first (is_final j.request) tried)

-- What an attempt does to the state.
unfoldable pub settle : Job → Attempt → Gateway → Gateway
settle j a g =
    if (result j.request a).success
    then note_embedded j a (exchange_with a g)
    else note_refused j a (exchange_with a g)

unfoldable pub settle_all : Job → List Attempt → Gateway → Gateway
settle_all j [] g = g
settle_all j (a ∷ rest) g = settle_all j rest (settle j a g)

verdict-nil : (j : Job) (errors : List Text) → verdict j errors [] ≡ all_failed errors
unfolding verdict first choose
verdict-nil j errors = ap all_failed (append-nil errors)

verdict-tried :
    (j : Job) (errors : List Text) (a : Attempt) (rest : List Attempt)
    → verdict j errors (a ∷ rest) ≡ (
        if is_final j.request a
        then answer j a
        else verdict j (errors ++ error_line j.request a ∷ []) rest)
unfolding verdict first choose
verdict-tried j errors a rest = elim (Bool-cases (is_final j.request a)) [
  | inl final ↦ rw final refl
  | inr again ↦ rw again (
      ap (λ l. choose j (all_failed l) (first (is_final j.request) rest))
        (sym (append_cons errors (error_line j.request a) (map (error_line j.request) rest))))
]

settle-served :
    (j : Job) (a : Attempt) (g : Gateway)
    → (result j.request a).success ≡ true
    → settle j a g ≡ note_embedded j a (exchange_with a g)
unfolding settle
settle-served j a g good = rw good refl

settle-failed :
    (j : Job) (a : Attempt) (g : Gateway)
    → (result j.request a).success ≡ false
    → settle j a g ≡ note_refused j a (exchange_with a g)
unfolding settle
settle-failed j a g bad = rw bad refl

-- The loop gives the answer to the first attempt whose result is not to be tried elsewhere, and where
-- there is none the errors of all backends, in order. It settles the attempts up to that one, no more.
pub embed-verdict :
    (j : Job) (send : ℕ → Selected → Exchange) (n : ℕ) (sels : List Selected) (errors : List Text)
    (g : Gateway)
    → embed j send n sels errors g ≡ (
      settle_all j (upto (is_final j.request) (attempts send n sels)) g,
      verdict j errors (attempts send n sels),
    )
unfolding embed attempts upto settle_all answer is_final
embed-verdict j send n [] errors g = ap (λ r. (g, r)) (sym (verdict-nil j errors))
embed-verdict j send n (s ∷ rest) errors g =
    let a : Attempt = record { selected = s; exchange = send n s } in
    let failed = note_refused j a (exchange_with a g) in
    let names = result-names j.request a in
    let later = embed-verdict j send (suc n) rest (errors ++ error_line j.request a ∷ []) failed in
    elim (Bool-cases (result j.request a).success) [
      | inl good ↦
          rw
            (
              verdict-tried j errors a (attempts send (suc n) rest),
              good,
              names.2 good,
              names.0,
              names.1,
            )
            (ap (λ h. (h, served (result j.request a).body (provider_of a) (model_of a) s.reason))
              (sym (settle-served j a g good)))
      | inr bad ↦
          let step = sym (settle-failed j a g bad) in
          let tried = upto (is_final j.request) (attempts send (suc n) rest) in
          elim (Bool-cases (result j.request a).retryable) [
            | inl again ↦
                rw (verdict-tried j errors a (attempts send (suc n) rest), bad, again)
                  (later
                    ∙ ap
                        (λ h. (
                          settle_all j tried h,
                          verdict j (errors ++ error_line j.request a ∷ [])
                              (attempts send (suc n) rest),
                        ))
                        step)
            | inr final ↦
                rw (verdict-tried j errors a (attempts send (suc n) rest), bad, final)
                  (ap
                    (λ h. (h, refused (result j.request a).error (result j.request a).status_code))
                    step)
          ]
    ]
