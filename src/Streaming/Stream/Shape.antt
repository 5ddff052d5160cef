-- ===== src/Streaming/Stream/Shape.antt =====
-- What the client of `handle_request_stream` in streaming.py gets.
use local_gateway.Prelude.{
  eqb, if◌then◌else◌, Bool-cases, ◌==◌, nat_eq, int_eq, Text, text_eqb_iff, text_eq, take, is_empty,
  ℕ, suc, ◌≡◌, refl, ap, ◌∙◌, inl, inr, Bool, true, false, not, ◌&&◌, Option, none, List, [], ◌∷◌,
  ◌++◌, map, arith,
}
use local_gateway.Router.Types.{Selected}
use local_gateway.Provider.{
  StreamReply, rejected, streamed, chunk, done, Accumulated, Ending, finished, idle_timeout,
  stream_timed_out, stream_raised, end_events, pull, call_provider_stream, Usage,
}
use local_gateway.Streaming.{Request}
use local_gateway.Streaming.Stream.{
  StreamExchange, StreamAttempt, Item, headers, bytes, error_event, done_mark, terminal, Relay,
  Progress, Outcome, stopped, next_backend, emit, commit, send_bytes, on_chunk, on_done, keep,
  on_failed, run_events, begin, end, attempt, give_up, go_on, stream_backends, opened, relayed,
  stream_interrupted, http_status, note_done, note_failed, done_bytes, provider_of, model_of,
  all_backends_failed,
}

-- An item that may follow the headers of a backend: its own bytes, an error event, or the end mark.
unfoldable pub is_plain : Text → Text → Item → Bool
is_plain p m (headers q n reason) = false
is_plain p m (bytes q n t) = q == p && n == m
is_plain p m (error_event t code) = true
is_plain p m done_mark = true
is_plain p m (terminal t status) = false

unfoldable pub all_plain : Text → Text → List Item → Bool
all_plain p m [] = true
all_plain p m (i ∷ is) = is_plain p m i && all_plain p m is

-- The headers of one backend, then its own bytes and error events only.
unfoldable pub is_started : List Item → Bool
is_started [] = false
is_started (headers p m reason ∷ is) = all_plain p m is
is_started (bytes p m t ∷ is) = false
is_started (error_event t code ∷ is) = false
is_started (done_mark ∷ is) = false
is_started (terminal t status ∷ is) = false

-- A stream of one backend, or one error with a status and nothing else.
unfoldable pub is_answer : List Item → Bool
is_answer (terminal t status ∷ is) = is_empty is
is_answer is = is_started is

is_plain-bytes : (p m t : Text) → is_plain p m (bytes p m t) ≡ true
unfolding is_plain
is_plain-bytes p m t = rw ((text_eqb_iff p p).1 refl, (text_eqb_iff m m).1 refl) refl

all_plain-emit :
    (p m : Text) (is : List Item) (i : Item)
    → is_plain p m i ≡ true
    → all_plain p m is ≡ true
    → all_plain p m (is ++ i ∷ []) ≡ true
unfolding all_plain
all_plain-emit p m [] i h k = rw h refl
all_plain-emit p m (j ∷ is) i h k = ground (arith, k, all_plain-emit p m is i h)

-- The headers of an attempt, and what it sends after them.
Started : StreamAttempt → List Item → Type 0
Started a is =
    (rest : List Item) × (is ≡ headers (provider_of a) (model_of a) a.selected.reason ∷ rest)
    × (all_plain (provider_of a) (model_of a) rest ≡ true)

emit-Started :
    (a : StreamAttempt) (is : List Item) (i : Item)
    → is_plain (provider_of a) (model_of a) i ≡ true
    → Started a is
    → Started a (is ++ i ∷ [])
unfolding Started
emit-Started a is i h (rest, e, k) = (
  rest ++ i ∷ [],
  ap (λ l. l ++ i ∷ []) e,
  all_plain-emit (provider_of a) (model_of a) rest i h k,
)

is_answer-Started : (a : StreamAttempt) (is : List Item) → Started a is → is_answer is ≡ true
unfolding is_answer is_started Started
is_answer-Started a is (rest, e, k) = ap is_answer e ∙ k

-- Nothing has been yielded.
Fresh : Progress → Type 0
Fresh p = (p.committed ≡ false) × (p.items ≡ [])

-- What an attempt has yielded before its first chunk, and from it on.
Ok : StreamAttempt → Bool → Progress → Type 0
unfolding Fresh
Ok a false p = Fresh p
Ok a true p = (p.committed ≡ true) × Started a p.items

commit-opened : (a : StreamAttempt) (p : Progress) → p.committed ≡ false → commit a p ≡ opened a p
unfolding commit
commit-opened a p h = ap (λ b. if b then p else opened a p) h

commit_again : (a : StreamAttempt) (p : Progress) → p.committed ≡ true → commit a p ≡ p
unfolding commit
commit_again a p h = ap (λ b. if b then p else opened a p) h

Ok-opened : (a : StreamAttempt) (p : Progress) → p.items ≡ [] → Ok a true (opened a p)
unfolding Ok Started opened emit all_plain
Ok-opened a p h =
    let head = headers (provider_of a) (model_of a) a.selected.reason in
    (refl, ([], ap (λ l. l ++ head ∷ []) h, refl))

Ok-commit :
    (a : StreamAttempt) (first : Bool) (p : Progress) → Ok a first p → Ok a true (commit a p)
unfolding Ok Fresh
Ok-commit a false p h = rw (commit-opened a p h.0) (Ok-opened a p h.1)
Ok-commit a true p h = rw (commit_again a p h.0) h

Ok-send_bytes :
    (q : Request) (a : StreamAttempt) (t : Text) (p : Progress)
    → Ok a true p
    → Ok a true (send_bytes q a t p)
unfolding Ok send_bytes emit
Ok-send_bytes q a t p h = elim (Bool-cases (is_empty t)) [
  | inl bare ↦ rw bare h
  | inr full ↦ rw full (
    h.0,
    emit-Started a p.items (bytes (provider_of a) (model_of a) t)
        (is_plain-bytes (provider_of a) (model_of a) t) h.1,
  )
]

Ok-on_chunk :
    (q : Request) (r : Relay) (a : StreamAttempt) (c : Text) (first : Bool) (p : Progress)
    → Ok a first p
    → Ok a true (on_chunk q r a c p)
unfolding Ok on_chunk
Ok-on_chunk q r a c first p h =
    Ok-send_bytes q a (relayed q r a p.fed c) (commit a p) (Ok-commit a first p h)

Ok-keep : (q : Request) (a : StreamAttempt) (p : Progress) → Ok a true p → Ok a true (keep q p)
unfolding Ok keep
Ok-keep q a p h = elim (Bool-cases (is_empty p.collected)) [
  | inl bare ↦ rw bare h
  | inr full ↦ rw full h
]

started-on_done :
    (q : Request) (r : Relay) (a : StreamAttempt) (u : Usage) (ttft : Option ℕ) (sent : Bool)
    (first : Bool) (p : Progress)
    → Ok a first p
    → Ok a true (on_done q r a u ttft sent p)
unfolding on_done
started-on_done q r a u ttft sent first p h =
    let begun = commit a p in
    let noted = record begun { gateway = note_done q a u ttft begun.gateway } in
    let tail = r.flush (provider_of a) p.fed in
    let ok = Ok-send_bytes q a tail noted (unfold Ok in Ok-commit a first p h) in
    Ok-keep q a
      (if sent
        then send_bytes q a tail noted
        else send_bytes q a done_bytes (send_bytes q a tail noted))
      (elim sent
        as (λ b. Ok a true (
          if b
          then send_bytes q a tail noted
          else send_bytes q a done_bytes (send_bytes q a tail noted))) [
            | true ↦ ok
            | false ↦ Ok-send_bytes q a done_bytes (send_bytes q a tail noted) ok
          ])

-- What an attempt leaves: an answer, or nothing yielded.
Left : Progress × Outcome → Type 0
unfolding Fresh
Left (p, stopped) = is_answer p.items ≡ true
Left (p, next_backend more) = Fresh p

on_failed-refused :
    (q : Request) (r : Relay) (a : StreamAttempt) (error : Text) (status : ℕ) (p : Progress)
    → p.committed ≡ false
    → on_failed q r a error status false false p ≡ (
      emit
          (terminal error (if eqb status 0 then 502 else status))
          (record p { gateway = note_failed q a error status none p.gateway }),
      stopped,
    )
unfolding on_failed
on_failed-refused q r a error status p h =
    let noted = record p { gateway = note_failed q a error status none p.gateway } in
    ap
      (λ b.
        if not b
        then (emit (terminal error (if eqb status 0 then 502 else status)) noted, stopped)
        else (emit done_mark (emit (error_event error (http_status status)) noted), stopped))
      h

Left-on_failed :
    (q : Request) (r : Relay) (a : StreamAttempt) (error : Text) (status : ℕ)
    (retryable first : Bool) (p : Progress)
    → Ok a first p
    → Left (on_failed q r a error status retryable first p)
unfolding on_failed Left
Left-on_failed q r a error status retryable true p h = is_answer-Started a _ (
    unfold emit Ok in
    emit-Started a _ done_mark (unfold is_plain in refl)
      (emit-Started a p.items (error_event error stream_interrupted) (unfold is_plain in refl) h.1))
Left-on_failed q r a error status true false p h = unfold Ok in h
Left-on_failed q r a error status false false p h =
    unfold Ok Fresh in
    rw (on_failed-refused q r a error status p h.0) (
      unfold emit is_answer in
      ap (λ l. is_answer (l ++ terminal error (if eqb status 0 then 502 else status) ∷ [])) h.1)

Left-run_done :
    (q : Request) (r : Relay) (a : StreamAttempt) (u : Usage) (ttft : Option ℕ) (sent : Bool)
    (trailing : List Text) (first : Bool) (p : Progress)
    → Ok a first p
    → Left (run_events q r a (map chunk trailing ++ done u ttft sent ∷ []) p)
unfolding run_events Left
Left-run_done q r a u ttft sent [] first p h =
    is_answer-Started a _ (unfold Ok Fresh in (started-on_done q r a u ttft sent first p h).1)
Left-run_done q r a u ttft sent (c ∷ trailing) first p h =
    Left-run_done q r a u ttft sent trailing true (on_chunk q r a c p)
      (Ok-on_chunk q r a c first p h)

Left-end_events :
    (q : Request) (r : Relay) (a : StreamAttempt) (first : Bool) (acc : Accumulated)
    (ending : Ending) (p : Progress)
    → Ok a first p
    → Left (run_events q r a (end_events first acc ending) p)
unfolding end_events run_events
Left-end_events q r a first acc finished p h =
    Left-run_done q r a acc.usage acc.ttft_ms acc.saw_done acc.trailing first p h
Left-end_events q r a first acc (idle_timeout text) p h = Left-on_failed q r a text 0 true first p h
Left-end_events q r a first acc stream_timed_out p h = Left-on_failed q r a _ 0 true first p h
Left-end_events q r a first acc (stream_raised text) p h =
    Left-on_failed q r a (take 500 text) 0 true first p h

Left-pull :
    (q : Request) (r : Relay) (a : StreamAttempt) (first : Bool) (acc : Accumulated)
    (ending : Ending) (cs : List Text) (p : Progress)
    → Ok a first p
    → Left (run_events q r a (pull first acc ending cs) p)
unfolding pull run_events
Left-pull q r a first acc ending [] p h = Left-end_events q r a first acc ending p h
Left-pull q r a first acc ending (c ∷ cs) p h = elim (Bool-cases (is_empty c)) [
  | inl bare ↦ rw bare (Left-pull q r a first acc ending cs p h)
  | inr full ↦
      rw full
        (Left-pull q r a true acc ending cs (on_chunk q r a c p) (Ok-on_chunk q r a c first p h))
]

Left-call :
    (q : Request) (r : Relay) (a : StreamAttempt) (reply : StreamReply) (p : Progress)
    → Fresh p
    → Left (run_events q r a (call_provider_stream r.observe reply) p)
unfolding call_provider_stream run_events Ok Fresh
Left-call q r a (rejected status retry_after text) p h =
    Left-on_failed q r a (take 500 text) status _ false p h
Left-call q r a (streamed chunks ending) p h =
    Left-pull q r a false (r.observe chunks) ending chunks p h

Left-end : (a : StreamAttempt) (ran : Progress × Outcome) → Left ran → Left (end a ran.0, ran.1)
unfolding Left end Ok
Left-end a (p, stopped) h = h
Left-end a (p, next_backend more) h = h

Left-attempt :
    (q : Request) (r : Relay) (a : StreamAttempt) (p : Progress) → Fresh p → Left (attempt q r a p)
unfolding attempt
Left-attempt q r a p h =
    Left-end a _ (Left-call q r a a.exchange.reply (begin a p) (unfold Ok begin in h))

answer-give_up :
    (r : Relay) (errors : List Text) (p : Progress)
    → Fresh p
    → is_answer (give_up r errors p).items ≡ true
unfolding give_up
answer-give_up r errors p h =
    unfold Ok Fresh emit is_answer in
    ap
      (λ b.
        is_answer
          (if not b
            then emit (terminal (r.exhausted errors) 502) p
            else emit done_mark
                (emit (error_event (r.exhausted errors) all_backends_failed) p)).items)
      h.0
    ∙ ap (λ l. is_answer (l ++ terminal (r.exhausted errors) 502 ∷ [])) h.1

answer-go_on :
    (ran : Progress × Outcome) (later : List Text → Progress)
    → Left ran
    → ((more : List Text) → Fresh ran.0 → is_answer (later more).items ≡ true)
    → is_answer (go_on ran.1 ran.0 later).items ≡ true
unfolding go_on Left
answer-go_on (p, stopped) later h k = h
answer-go_on (p, next_backend more) later h k = k more h

answer_backends :
    (q : Request) (r : Relay) (send : ℕ → Selected → StreamExchange) (n : ℕ) (sels : List Selected)
    (errors : List Text) (p : Progress)
    → Fresh p
    → is_answer (stream_backends q r send n sels errors p).items ≡ true
unfolding stream_backends
answer_backends q r send n [] errors p h = answer-give_up r errors p h
answer_backends q r send n (s ∷ rest) errors p h =
    let a : StreamAttempt = record { selected = s; exchange = send n s } in
    answer-go_on (attempt q r a p) _ (Left-attempt q r a p h)
      (λ more k. answer_backends q r send (suc n) rest (errors ++ more) (attempt q r a p).0 k)

-- Whatever the backends do, a stream that starts with nothing yielded gives the client either one error
-- with its status and nothing else, or the headers of one backend followed by error events and by bytes
-- that attempts of this backend, the same provider and model, have sent: bytes of another backend are
-- never mixed in, and an error after the first byte is an event.
pub is_answer-stream_backends :
    (q : Request) (r : Relay) (send : ℕ → Selected → StreamExchange) (sels : List Selected)
    (p : Progress)
    → p.committed ≡ false
    → p.items ≡ []
    → is_answer (stream_backends q r send 0 sels [] p).items ≡ true
is_answer-stream_backends q r send sels p open_ none_yet =
    answer_backends q r send 0 sels [] p (unfold Ok Fresh in (open_, none_yet))
