-- ===== src/DbWriter.antt =====
-- localgateway/dbwriter.py: the background writer of the database. A statement with its parameters
-- is one item; `execute` and `commit` are sqlite's, on a state of the database, and none where they raise.
pub mod Batches
pub mod Schedules
use local_gateway.Prelude.{
  leb, if◌then◌else◌, nat_eq, int_eq, text_eq, length, is_empty, ℕ, Bool, true, false, not, ◌||◌,
  Option, none, some, List, [], ◌∷◌, ◌++◌, arith,
}

abbrev pub batch_size : ℕ
batch_size = 50

pub data Item {ℓ} (S : Type ℓ) : Type ℓ where
  write : S → Item S
  flush_mark stop_mark : Item S

-- What one turn of the worker's loop meets: an item of the queue, or none within the interval, with
-- `_running` as it is then.
pub data Turn {ℓ} (S : Type ℓ) : Type ℓ where
  got : Item S → Turn S
  idle : Bool → Turn S

-- The connection: the database, what the transaction that is open makes of it, and whether the
-- connection is there.
pub record Connection {κ} (D : Type κ) : Type κ where
  pub saved : D
  pub pending : D
  pub is_open : Bool

pub record Worker {ℓ κ} (S : Type ℓ) (D : Type κ) : Type (ℓ ⊔ κ) where
  pub batch : List S
  pub db : Connection D
  pub ended : Bool

module _ {ℓ κ} {S : Type ℓ} {D : Type κ} (execute : S → D → Option D) (commit : D → Option D) where
  unfoldable pub and_then : Option D → (D → Option D) → Option D
  and_then none k = none
  and_then (some d) k = k d

  -- The statements and the commit, from what the transaction has.
  unfoldable pub execute_all : List S → D → Option D
  execute_all [] d = commit d
  execute_all (s ∷ batch) d = and_then (execute s d) (execute_all batch)

  -- A commit that raises leaves its statements in the transaction.
  unfoldable pub committed : D → Option D → Connection D → Connection D
  committed e none c = record c { pending = e }
  committed e (some d) c = record c { saved = d; pending = d }

  unfoldable pub executed : Option D → Connection D → Connection D
  executed none c = c
  executed (some e) c = committed e (commit e) c

  -- One statement with a commit of its own: one that raises changes nothing.
  unfoldable pub try_one : S → Connection D → Connection D
  try_one s c = executed (execute s c.pending) c

  unfoldable pub try_each : List S → Connection D → Connection D
  try_each [] c = c
  try_each (s ∷ batch) c = try_each batch (try_one s c)

  -- After the transaction: where it raised it is rolled back, and its statements are tried one by one.
  unfoldable pub or_each : List S → Connection D → Option D → Connection D
  or_each batch c none = try_each batch (record c { pending = c.saved })
  or_each batch c (some e) = record c { saved = e; pending = e }

  unfoldable pub flush : List S → Connection D → Connection D
  flush batch c =
      if not c.is_open || is_empty batch then c else or_each batch c (execute_all batch c.pending)

  unfoldable pub flush_batch : Worker S D → Worker S D
  flush_batch w = record w { db = flush w.batch w.db; batch = [] }

  unfoldable pub take_write : S → Worker S D → Worker S D
  take_write s w =
      let fuller = record w { batch = w.batch ++ s ∷ [] } in
      if leb batch_size (length fuller.batch) then flush_batch fuller else fuller

  -- A connection that is closed drops what was not committed.
  unfoldable pub close : Connection D → Connection D
  close c = record c { pending = c.saved; is_open = false }

  -- The final flush, after the loop, and the end of the connection.
  unfoldable pub finish : Worker S D → Worker S D
  finish w = let flushed = flush_batch w in record flushed { db = close flushed.db; ended = true }

  unfoldable pub turn : Turn S → Worker S D → Worker S D
  turn (got (write s)) w = take_write s w
  turn (got flush_mark) w = flush_batch w
  turn (got stop_mark) w = finish w
  turn (idle running) w = if running then flush_batch w else finish (flush_batch w)

  -- The loop of `_run`: an ended loop takes nothing more.
  unfoldable pub run : List (Turn S) → Worker S D → Worker S D
  run [] w = w
  run (t ∷ turns) w = if w.ended then w else run turns (turn t w)

  -- `_run`, from a database: the thread ends at once where it cannot connect.
  unfoldable pub run_thread : Bool → List (Turn S) → D → Worker S D
  run_thread connects turns d =
      let c : Connection D = record { saved = d; pending = d; is_open = connects } in
      let w : Worker S D = record { batch = []; db = c; ended = not connects } in
      if connects then run turns w else w

  -- Without the worker; the connection is one of its own, and none is an error for the caller.
  unfoldable pub write_sync : S → D → Option D
  write_sync s d = execute_all (s ∷ []) d

-- The object: its queue, and whether the worker runs.
pub record Writer {ℓ} (S : Type ℓ) : Type ℓ where
  pub queue : List (Item S)
  pub running : Bool

module _ {ℓ} {S : Type ℓ} where
  unfoldable pub start : Writer S → Writer S
  start w = if w.running then w else record w { running = true }

  unfoldable pub stop : Writer S → Writer S
  stop w = if w.running then record w { running = false; queue = w.queue ++ stop_mark ∷ [] } else w

  -- The statement that is executed at once, if the worker does not run.
  unfoldable pub enqueue : S → Writer S → Writer S × Option S
  enqueue s w =
      if w.running then (record w { queue = w.queue ++ write s ∷ [] }, none) else (w, some s)

  unfoldable pub request_flush : Writer S → Writer S
  request_flush w = record w { queue = w.queue ++ flush_mark ∷ [] }

  unfoldable pub enqueue_all : List S → Writer S → Writer S
  enqueue_all [] w = w
  enqueue_all (s ∷ ss) w = enqueue_all ss (enqueue s w).0
