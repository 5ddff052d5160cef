-- ===== src/DbWriter/Schedules.antt =====
-- The turns of the worker of dbwriter.py that take the queue of a writer.
use local_gateway.Prelude.{
  if◌then◌else◌, nat_eq, int_eq, text_eq, ◌≡◌, refl, sym, ap, ◌∙◌, Bool, true, false, Option, none,
  some, List, [], ◌∷◌, ◌++◌, map, arith,
}
use mathlib.Core.List.{append-nil, append_assoc}
use local_gateway.DbWriter.{
  Item, write, flush_mark, stop_mark, Turn, got, idle, run_thread, Writer, start, stop, enqueue,
  enqueue_all,
}
use local_gateway.DbWriter.Batches.{writes_of, is_ending, apply_all, run-apply_all}

-- What the worker's loop may meet while it takes a queue: each item in its turn, intervals without one
-- while the writer runs, and at the end a last such interval that comes after `_running` is unset and
-- before the stop mark is in the queue.
pub data Schedule {ℓ} {S : Type ℓ} : List (Item S) → List (Turn S) → Type ℓ where
  over : Schedule [] []
  takes :
      (i : Item S) {q : List (Item S)} {ts : List (Turn S)}
      → Schedule q ts
      → Schedule (i ∷ q) (got i ∷ ts)
  waits : {q : List (Item S)} {ts : List (Turn S)} → Schedule q ts → Schedule q (idle true ∷ ts)
  exits : Schedule (stop_mark ∷ []) (idle false ∷ [])

-- The writes of a queue up to its stop mark.
writes_in {ℓ} : {S : Type ℓ} → List (Item S) → List S
writes_in [] = []
writes_in (write s ∷ q) = s ∷ writes_in q
writes_in (flush_mark ∷ q) = writes_in q
writes_in (stop_mark ∷ q) = []

has_stop {ℓ} : {S : Type ℓ} → List (Item S) → Bool
has_stop [] = false
has_stop (write s ∷ q) = has_stop q
has_stop (flush_mark ∷ q) = has_stop q
has_stop (stop_mark ∷ q) = true

writes_of-Schedule {ℓ} :
    {S : Type ℓ} {q : List (Item S)} {turns : List (Turn S)}
    → Schedule q turns
    → has_stop q ≡ true
    → (writes_of turns ≡ writes_in q) × (is_ending turns ≡ true)
unfolding writes_of writes_in is_ending has_stop
writes_of-Schedule over h = cc
writes_of-Schedule (takes (write s) later) h =
    let k = writes_of-Schedule later h in (ap (λ l. s ∷ l) k.0, k.1)
writes_of-Schedule (takes flush_mark later) h = writes_of-Schedule later h
writes_of-Schedule (takes stop_mark later) h = (refl, refl)
writes_of-Schedule (waits later) h = writes_of-Schedule later h
writes_of-Schedule exits h = (refl, refl)

module _ {ℓ} {S : Type ℓ} where
  enqueue_on :
      (s : S) (w : Writer S)
      → w.running ≡ true
      → (enqueue s w).0 ≡ record w { queue = w.queue ++ write s ∷ [] }
  unfolding enqueue
  enqueue_on s w h =
      ap
        (λ b.
          let r : Writer S × Option S =
            if b then (record w { queue = w.queue ++ write s ∷ [] }, none) else (w, some s) in
          r.0)
        h

  queue-enqueue_all :
      (ss : List S) (w : Writer S)
      → w.running ≡ true
      → (enqueue_all ss w).queue ≡ w.queue ++ map write ss
  unfolding enqueue_all
  queue-enqueue_all [] w h = sym (append-nil w.queue)
  queue-enqueue_all (s ∷ ss) w h =
      ap (λ v. (enqueue_all ss v).queue) (enqueue_on s w h)
      ∙ queue-enqueue_all ss (record w { queue = w.queue ++ write s ∷ [] }) h
      ∙ append_assoc w.queue (write s ∷ []) (map write ss)

  running-enqueue_all : (ss : List S) (w : Writer S) → (enqueue_all ss w).running ≡ w.running
  unfolding enqueue_all enqueue
  running-enqueue_all [] w = refl
  running-enqueue_all (s ∷ ss) w = running-enqueue_all ss (enqueue s w).0 ∙ ground arith

  -- The queue of a writer that is started, given some writes, and stopped.
  abbrev pub queue_of : List S → List (Item S)
  queue_of ss = (stop (enqueue_all ss (start (record { queue = []; running = false })))).queue

  queue_of-stop :
      (ss : List S)
      → (stop (enqueue_all ss (start (record { queue = []; running = false })))).queue
        ≡ map write ss ++ stop_mark ∷ []
  unfolding stop start
  queue_of-stop ss =
      let on : Writer S = record { queue = []; running = true } in
      rw (running-enqueue_all ss on) (ap (λ l. l ++ stop_mark ∷ []) (queue-enqueue_all ss on refl))

  writes_in_queue : (ss : List S) → writes_in (map write ss ++ stop_mark ∷ []) ≡ ss
  unfolding writes_in
  writes_in_queue [] = refl
  writes_in_queue (s ∷ ss) = ap (λ l. s ∷ l) (writes_in_queue ss)

  has_stop_queue : (ss : List S) → has_stop (map write ss ++ stop_mark ∷ []) ≡ true
  unfolding has_stop
  has_stop_queue [] = refl
  has_stop_queue (s ∷ ss) = has_stop_queue ss

module _ {ℓ κ} {S : Type ℓ} {D : Type κ} (execute : S → D → Option D) (commit : D → Option D)
    (commits : (d : D) → commit d ≡ some d) where
  -- If no commit raises, then whenever the thread's loop takes what was enqueued between the start and
  -- the stop, with any idle intervals in between, it ends, and all the writes are in the database, in
  -- their order, but for those that raise. If the thread could not connect, none of them is.
  pub run-stop :
      (connects : Bool) (ss : List S) (turns : List (Turn S)) (d : D)
      → Schedule (queue_of ss) turns
      → ((run_thread execute commit connects turns d).db.saved
          ≡ (if connects then apply_all execute ss d else d))
        × ((run_thread execute commit connects turns d).ended ≡ true)
  run-stop connects ss turns d taken =
      let stops : has_stop (queue_of ss) ≡ true =
        ap has_stop (queue_of-stop ss) ∙ has_stop_queue ss in
      let k = writes_of-Schedule taken stops in
      let all : writes_of turns ≡ ss = k.0 ∙ ap writes_in (queue_of-stop ss) ∙ writes_in_queue ss in
      let whole = run-apply_all execute commit commits connects turns d k.1 in
      (whole.0 ∙ ap (λ l. if connects then apply_all execute l d else d) all, whole.1)
