-- ===== src/Events.antt =====
-- localgateway/events.py: the bus of events. A subscriber is a number, its queue a list, oldest first;
-- the set of subscribers is kept in the order of subscription. Delivery runs in the order of the
-- calls, on the loop or in the caller.
pub mod Delivery
use local_gateway.Prelude.{nat_eq, int_eq, text_eq, length, ℕ, ◌+◌, List, [], ◌∷◌, ◌++◌, arith}
use local_gateway.Prelude.Recent.{push}
use local_gateway.Dict.{Dict, get_default, set, remove}

abbrev pub queue_size : ℕ
queue_size = 256

pub record Bus {ℓ} (M : Type ℓ) : Type ℓ where
  pub subscribers : Dict ℕ (List M)
  pub next_id : ℕ
  pub state_version : ℕ

module _ {ℓ} {M : Type ℓ} where
  unfoldable pub bump_state_version : Bus M → Bus M
  bump_state_version b = record b { state_version = b.state_version + 1 }

  unfoldable pub subscribe : Bus M → Bus M × ℕ
  subscribe b = (
    record b { subscribers = b.subscribers ++ (b.next_id, []) ∷ []; next_id = b.next_id + 1 },
    b.next_id,
  )

  unfoldable pub unsubscribe : ℕ → Bus M → Bus M
  unsubscribe q b = record b { subscribers = remove q b.subscribers }

  unfoldable pub subscriber_count : Bus M → ℕ
  subscriber_count b = length b.subscribers

  -- `put_nowait`, and where the queue is full `get_nowait` before it.
  unfoldable pub deliver : M → Dict ℕ (List M) → Dict ℕ (List M)
  deliver msg [] = []
  deliver msg ((q, items) ∷ rest) = (q, push queue_size items msg) ∷ deliver msg rest

  unfoldable pub publish : M → Bus M → Bus M
  publish msg b = record b { subscribers = deliver msg b.subscribers }

  -- What a subscriber that reads its queue takes.
  unfoldable pub read : ℕ → Bus M → List M
  read q b = get_default q [] b.subscribers
