-- ===== src/DbWriter/Batches.antt =====
-- The batches of dbwriter.py, and what they leave in the database.
use local_gateway.Prelude.{
  leb, if◌then◌else◌, Bool-cases, nat_eq, int_eq, text_eq, length, ◌≡◌, refl, sym, ap, ◌∙◌, ◌⊎◌,
  inl, inr, Bool, true, false, Option, none, some, List, [], ◌∷◌, ◌++◌,
}
use mathlib.Core.List.{append-nil, append_assoc}
use local_gateway.DbWriter.{
  write, flush_mark, stop_mark, Turn, got, idle, Connection, Worker, batch_size, execute_all,
  executed, try_one, try_each, or_each, flush, flush_batch, take_write, finish, turn, run,
  run_thread, and_then, close, committed,
}

-- The writes of the turns up to the end of the loop.
unfoldable pub writes_of {ℓ} : {S : Type ℓ} → List (Turn S) → List S
writes_of [] = []
writes_of (got (write s) ∷ turns) = s ∷ writes_of turns
writes_of (got flush_mark ∷ turns) = writes_of turns
writes_of (got stop_mark ∷ turns) = []
writes_of (idle true ∷ turns) = writes_of turns
writes_of (idle false ∷ turns) = []

-- Whether a turn ends the loop.
unfoldable pub is_ending {ℓ} : {S : Type ℓ} → List (Turn S) → Bool
is_ending [] = false
is_ending (got (write s) ∷ turns) = is_ending turns
is_ending (got flush_mark ∷ turns) = is_ending turns
is_ending (got stop_mark ∷ turns) = true
is_ending (idle true ∷ turns) = is_ending turns
is_ending (idle false ∷ turns) = true

module _ {ℓ κ} {S : Type ℓ} {D : Type κ} (execute : S → D → Option D) where
  -- What the database is to be: each write alone, in order, and those that raise skipped.
  unfoldable pub or_same : D → Option D → D
  or_same d none = d
  or_same d (some e) = e

  unfoldable pub apply_all : List S → D → D
  apply_all [] d = d
  apply_all (s ∷ ss) d = apply_all ss (or_same d (execute s d))

  apply_all-append :
      (xs ys : List S) (d : D) → apply_all (xs ++ ys) d ≡ apply_all ys (apply_all xs d)
  unfolding apply_all
  apply_all-append [] ys d = refl
  apply_all-append (x ∷ xs) ys d = apply_all-append xs ys (or_same d (execute x d))

  -- A connection without an open transaction.
  clean : Bool → D → Connection D
  clean there d = record { saved = d; pending = d; is_open = there }

  working : List S → D → Worker S D
  unfolding clean
  working batch d = record { batch = batch; db = clean true d; ended = false }

  stopped : D → Worker S D
  unfolding clean
  stopped d = record { batch = []; db = clean false d; ended = true }

  module _ (commit : D → Option D) (commits : (d : D) → commit d ≡ some d) where
    try_one-clean :
        (s : S) (d : D)
        → try_one execute commit s (clean true d) ≡ clean true (or_same d (execute s d))
    unfolding try_one clean executed or_same committed
    try_one-clean s d = after (execute s d)
      where
        after : (o : Option D) → executed execute commit o (clean true d) ≡ clean true (or_same d o)
        after none = refl
        after (some e) = rw (commits e) refl

    try_each-clean :
        (batch : List S) (d : D)
        → try_each execute commit batch (clean true d) ≡ clean true (apply_all batch d)
    unfolding try_each apply_all
    try_each-clean [] d = refl
    try_each-clean (s ∷ batch) d =
        ap (try_each execute commit batch) (try_one-clean s d)
        ∙ try_each-clean batch (or_same d (execute s d))

    -- A transaction raises, or does what its statements do alone.
    execute_all-apply_all :
        (batch : List S) (d : D)
        → (execute_all execute commit batch d ≡ none)
          ⊎ (execute_all execute commit batch d ≡ some (apply_all batch d))
    unfolding execute_all apply_all and_then or_same
    execute_all-apply_all [] d = inr (commits d)
    execute_all-apply_all (s ∷ batch) d = after (execute s d) (execute_all-apply_all batch)
      where
        after :
            (o : Option D)
            → ((e : D)
                → (execute_all execute commit batch e ≡ none)
                  ⊎ (execute_all execute commit batch e ≡ some (apply_all batch e)))
            → (and_then execute commit o (execute_all execute commit batch) ≡ none)
              ⊎ (and_then execute commit o (execute_all execute commit batch)
                  ≡ some (apply_all batch (or_same d o)))
        after none later = inl refl
        after (some e) later = later e

    flush-clean :
        (batch : List S) (d : D)
        → flush execute commit batch (clean true d) ≡ clean true (apply_all batch d)
    unfolding flush or_each clean apply_all
    flush-clean [] d = refl
    flush-clean (s ∷ batch) d = elim (execute_all-apply_all (s ∷ batch) d) [
      | inl bad ↦
          ap (or_each execute commit (s ∷ batch) (clean true d)) bad ∙ try_each-clean (s ∷ batch) d
      | inr good ↦ ap (or_each execute commit (s ∷ batch) (clean true d)) good
    ]

    flush_batch-working :
        (batch : List S) (d : D)
        → flush_batch execute commit (working batch d) ≡ working [] (apply_all batch d)
    unfolding flush_batch working
    flush_batch-working batch d =
        ap (λ c. record { batch = []; db = c; ended = false }) (flush-clean batch d)

    finish-working :
        (batch : List S) (d : D)
        → finish execute commit (working batch d) ≡ stopped (apply_all batch d)
    unfolding finish
    finish-working batch d =
        ap
          (λ (w : Worker S D).
            let o : Worker S D = record w { db = close execute commit w.db; ended = true } in o)
          (flush_batch-working batch d)
        ∙ unfold close working stopped clean in refl

    run_on :
        (t : Turn S) (turns : List (Turn S)) (batch : List S) (d : D)
        → run execute commit (t ∷ turns) (working batch d)
          ≡ run execute commit turns (turn execute commit t (working batch d))
    unfolding run working
    run_on t turns batch d = refl

    run-stopped : (turns : List (Turn S)) (d : D) → run execute commit turns (stopped d) ≡ stopped d
    unfolding run stopped
    run-stopped [] d = refl
    run-stopped (t ∷ turns) d = refl

    take_write-working :
        (s : S) (batch : List S) (d : D)
        → take_write execute commit s (working batch d) ≡ (
            if leb batch_size (length (batch ++ s ∷ []))
            then flush_batch execute commit (working (batch ++ s ∷ []) d)
            else working (batch ++ s ∷ []) d)
    unfolding take_write working
    take_write-working s batch d = refl

    run-working :
        (turns : List (Turn S)) (batch : List S) (d : D)
        → is_ending turns ≡ true
        → run execute commit turns (working batch d)
          ≡ stopped (apply_all (batch ++ writes_of turns) d)
    unfolding writes_of is_ending turn apply_all
    run-working [] batch d h = cc
    run-working (got (write s) ∷ turns) batch d h =
        let fuller = batch ++ s ∷ [] in
        let joined : fuller ++ writes_of turns ≡ batch ++ s ∷ writes_of turns =
          append_assoc batch (s ∷ []) (writes_of turns) in
        run_on (got (write s)) turns batch d ∙ elim (Bool-cases (leb batch_size (length fuller))) [
          | inl full ↦
              ap (run execute commit turns) (
                take_write-working s batch d
                ∙ ap
                    (λ b.
                      if b then flush_batch execute commit (working fuller d) else working fuller d)
                    full
                ∙ flush_batch-working fuller d)
              ∙ run-working turns [] (apply_all fuller d) h
              ∙ ap stopped (sym (apply_all-append fuller (writes_of turns) d))
              ∙ ap (λ l. stopped (apply_all l d)) joined
          | inr room ↦
              ap (run execute commit turns) (
                take_write-working s batch d
                ∙ ap
                    (λ b.
                      if b then flush_batch execute commit (working fuller d) else working fuller d)
                    room)
              ∙ run-working turns fuller d h
              ∙ ap (λ l. stopped (apply_all l d)) joined
        ]
    run-working (got flush_mark ∷ turns) batch d h =
        run_on (got flush_mark) turns batch d
        ∙ ap (run execute commit turns) (flush_batch-working batch d)
        ∙ run-working turns [] (apply_all batch d) h
        ∙ ap stopped (sym (apply_all-append batch (writes_of turns) d))
    run-working (got stop_mark ∷ turns) batch d h =
        run_on (got stop_mark) turns batch d
        ∙ ap (run execute commit turns) (finish-working batch d)
        ∙ run-stopped turns (apply_all batch d)
        ∙ ap (λ l. stopped (apply_all l d)) (sym (append-nil batch))
    run-working (idle true ∷ turns) batch d h =
        run_on (idle true) turns batch d
        ∙ ap (run execute commit turns) (flush_batch-working batch d)
        ∙ run-working turns [] (apply_all batch d) h
        ∙ ap stopped (sym (apply_all-append batch (writes_of turns) d))
    run-working (idle false ∷ turns) batch d h =
        run_on (idle false) turns batch d
        ∙ ap (λ w. run execute commit turns (finish execute commit w)) (flush_batch-working batch d)
        ∙ ap (run execute commit turns) (finish-working [] (apply_all batch d))
        ∙ run-stopped turns (apply_all [] (apply_all batch d))
        ∙ ap (λ l. stopped (apply_all l d)) (sym (append-nil batch))

    -- If no commit raises, and a turn ends the loop, then whatever batches the thread makes, the database
    -- in the end is as if each write up to that turn had been executed alone, in the order of the queue,
    -- and those that raise skipped. A thread that cannot connect ends too, and leaves the database as it
    -- was: its writes are lost.
    pub run-apply_all :
        (connects : Bool) (turns : List (Turn S)) (d : D)
        → is_ending turns ≡ true
        → ((run_thread execute commit connects turns d).db.saved
            ≡ (if connects then apply_all (writes_of turns) d else d))
          × ((run_thread execute commit connects turns d).ended ≡ true)
    unfolding run_thread
    run-apply_all true turns d h =
        let e = run-working turns [] d h in
        unfold working clean stopped in (ap (λ w. w.db.saved) e, ap (λ w. w.ended) e)
    run-apply_all false turns d h = (refl, refl)
