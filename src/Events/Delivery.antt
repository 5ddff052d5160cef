-- ===== src/Events/Delivery.antt =====
-- What a subscriber of the bus of events.py finds in its queue.
use local_gateway.Prelude.{
  Bool-cases, ◌==◌, nat_eq, int_eq, text_eq, length, drop, ℕ, ◌-◌, ◌≡◌, refl, ap, ◌∙◌, inl, inr,
  false, Option, none, some, List, [], ◌∷◌, ◌++◌, arith,
}
use local_gateway.Prelude.Recent.{push, push_all, last_items, push_all-last_items}
use local_gateway.Dict.{Dict, get, get_default, has}
use local_gateway.Events.{Bus, queue_size, subscribe, deliver, publish, read}

module _ {ℓ} {M : Type ℓ} where
  unfoldable pub publish_all : List M → Bus M → Bus M
  publish_all [] b = b
  publish_all (m ∷ msgs) b = publish_all msgs (publish m b)

  queued : Option (List M) → M → Option (List M)
  queued none m = none
  queued (some items) m = some (push queue_size items m)

  get-deliver : (q : ℕ) (m : M) (d : Dict ℕ (List M)) → get q (deliver m d) ≡ queued (get q d) m
  unfolding deliver get queued
  get-deliver q m [] = refl
  get-deliver q m ((p, items) ∷ rest) = elim (Bool-cases (p == q)) [
    | inl e ↦ rw e refl
    | inr e ↦ rw e (get-deliver q m rest)
  ]

  get-publish_all :
      (q : ℕ) (items : List M) (msgs : List M) (b : Bus M)
      → get q b.subscribers ≡ some items
      → get q (publish_all msgs b).subscribers ≡ some (push_all queue_size items msgs)
  unfolding publish_all push_all publish
  get-publish_all q items [] b h = h
  get-publish_all q items (m ∷ msgs) b h =
      get-publish_all q (push queue_size items m) msgs (publish m b)
        (get-deliver q m b.subscribers ∙ unfold queued in ap (λ o. queued o m) h)

  get-append_new :
      (q : ℕ) (d : Dict ℕ (List M)) → has q d ≡ false → get q (d ++ (q, []) ∷ []) ≡ some []
  unfolding get has
  get-append_new q [] h = ground arith
  get-append_new q ((p, items) ∷ rest) h = ground (arith, h, get-append_new q rest)

  get_default-some :
      (q : ℕ) (items : List M) (d : Dict ℕ (List M))
      → get q d ≡ some items
      → get_default q [] d ≡ items
  unfolding get_default
  get_default-some q items d h = ap (λ o. elim o as (λ x. List M) [ none ↦ [] | some v ↦ v ]) h

  -- A subscriber that does not read finds the last 256 of the messages published since it subscribed,
  -- in their order, or all where there are fewer.
  pub publish_all-read :
      (msgs : List M) (b : Bus M)
      → has b.next_id b.subscribers ≡ false
      → read (subscribe b).1 (publish_all msgs (subscribe b).0)
        ≡ drop (length msgs - queue_size) msgs
  unfolding read subscribe last_items
  publish_all-read msgs b fresh =
      get_default-some b.next_id (push_all queue_size [] msgs)
        (publish_all msgs (subscribe b).0).subscribers
        (get-publish_all b.next_id [] msgs (subscribe b).0
          (get-append_new b.next_id b.subscribers fresh))
      ∙ push_all-last_items queue_size [] msgs (omega arith)
      ∙ unfold last_items in refl
