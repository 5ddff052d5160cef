-- ===== src/Admin/Rename/Prices.antt =====
-- The prices after a provider is renamed.
use local_gateway.Admin.Rename.Saved.{rename_entity-saved}
use local_gateway.Config.{pricing_for, no_pricing}
use local_gateway.Dict.Laws.{contains-keys, has-get, get-set, get-remove, get-set_self, IsDict}
use local_gateway.Config.Validate.Errors.{distinct}
use local_gateway.Admin.Rename.{
  move_prices, move_price, Dict, PricingEntry, put_price, get, remove, keys, with_provider_renamed,
  GatewayConfig, RateLimit, rename_entity, of_provider, saved,
}
use local_gateway.Prelude.{
  eqb_iff, Bool-cases, Option-cases, ◌==◌, nat_eq, int_eq, Text, text_eqb_iff, text_eq, contains,
  ◌≡◌, refl, sym, ap, ◌∙◌, ◌≢◌, inl, inr, true, false, Option, none, some, List, [], ◌∷◌, ◌++◌,
  arith,
}
use local_gateway.Backend.{backend_key, colon, backend_key_injective}
use local_gateway.RateLimit.{strip_prefix}

strip_prefix_lem : (p k rest : Text) → strip_prefix p k ≡ some rest → k ≡ p ++ rest
unfolding strip_prefix
strip_prefix_lem [] k rest h = ground arith
strip_prefix_lem (c ∷ p) [] rest h = cc
strip_prefix_lem (c ∷ p) (d ∷ k) rest h = ground (arith, strip_prefix_lem p k rest, eqb_iff c d)

strip_prefix-append : (p rest : Text) → strip_prefix p (p ++ rest) ≡ some rest
unfolding strip_prefix
strip_prefix-append [] rest = refl
strip_prefix-append (c ∷ p) rest = ground (arith, strip_prefix-append p rest, eqb_iff c c)

append_key : (p rest : Text) → (p ++ colon ∷ []) ++ rest ≡ backend_key p rest
unfolding backend_key
append_key [] rest = refl
append_key (c ∷ p) rest = ap (λ l. c ∷ l) (append_key p rest)

-- A key of another provider leaves the prices as they are.
move_price-foreign :
    (old new k : Text) (d : Dict Text PricingEntry)
    → strip_prefix (old ++ colon ∷ []) k ≡ none
    → move_price old new k d ≡ d
unfolding move_price
move_price-foreign old new k d h =
    ap
      (λ o. elim o [
        | none ↦ d
        | some rest ↦ put_price (backend_key new rest) (remove k d) (get k d)
      ])
      h

move_price-own :
    (old new rest : Text) (d : Dict Text PricingEntry)
    → move_price old new (backend_key old rest) d
      ≡ put_price
          (backend_key new rest)
          (remove (backend_key old rest) d)
          (get (backend_key old rest) d)
unfolding move_price
move_price-own old new rest d =
    let k = backend_key old rest in
    ap
      (λ o. elim o [
        | none ↦ d
        | some rest ↦ put_price (backend_key new rest) (remove k d) (get k d)
      ])
      (ap (strip_prefix (old ++ colon ∷ [])) (sym (append_key old rest))
        ∙ strip_prefix-append (old ++ colon ∷ []) rest)

get-put_price :
    (j key : Text) (d : Dict Text PricingEntry) (o : Option PricingEntry)
    → j ≢ key
    → get j (put_price key d o) ≡ get j d
unfolding put_price
get-put_price j key d none h = refl
get-put_price j key d (some entry) h = ground (arith, get-set key j entry d, text_eqb_iff key j, h)

-- A turn of the loop changes the entries of its key and of the key's new name only.
get-move_price :
    (old new j k : Text) (d : Dict Text PricingEntry)
    → ((rest : Text) → k ≡ backend_key old rest → (j ≢ k) × (j ≢ backend_key new rest))
    → get j (move_price old new k d) ≡ get j d
get-move_price old new j k d h = elim (Option-cases (strip_prefix (old ++ colon ∷ []) k)) [
  | inl foreign ↦ ap (get j) (move_price-foreign old new k d foreign)
  | inr (rest, own) ↦
      let e = strip_prefix_lem (old ++ colon ∷ []) k rest own ∙ append_key old rest in
      ap (λ k. get j (move_price old new k d)) e
      ∙ ap (get j) (move_price-own old new rest d)
      ∙ get-put_price j (backend_key new rest) (remove (backend_key old rest) d)
          (get (backend_key old rest) d) (h rest e).1
      ∙ get-remove (backend_key old rest) j d
      ∙ ground (arith, text_eqb_iff (backend_key old rest) j, h rest e, e)
]

same_model : (p m n : Text) → backend_key p m ≡ backend_key p n → m ≡ n
unfolding backend_key
same_model [] m n e = ground arith
same_model (c ∷ p) m n e = ground (arith, same_model p m n)

module _ (old new : Text) (apart : (m n : Text) → backend_key old m ≢ backend_key new n) where
  get-move_prices_absent :
      (m : Text) (ks : List Text) (d : Dict Text PricingEntry)
      → contains (backend_key old m) ks ≡ false
      → get (backend_key new m) (move_prices old new ks d) ≡ get (backend_key new m) d
  unfolding move_prices contains
  get-move_prices_absent m [] d h = refl
  get-move_prices_absent m (k ∷ ks) d h =
      get-move_prices_absent m ks (move_price old new k d) (ground (arith, h))
      ∙ get-move_price old new (backend_key new m) k d (λ rest own. (
        (λ e. apart rest m (sym own ∙ sym e)),
        λ e.
            let hit =
              (text_eqb_iff k (backend_key old m)).1
                (own ∙ ap (backend_key old) (sym (same_model new m rest e))) in
            ground (arith, h, hit),
      ))

  get-move_prices_present :
      (m : Text) (v : PricingEntry) (ks : List Text) (d : Dict Text PricingEntry)
      → distinct ks ≡ true
      → contains (backend_key old m) ks ≡ true
      → get (backend_key old m) d ≡ some v
      → get (backend_key new m) (move_prices old new ks d) ≡ some v
  unfolding move_prices contains distinct
  get-move_prices_present m v [] d u h e = cc
  get-move_prices_present m v (k ∷ ks) d u h e = elim (Bool-cases (k == backend_key old m)) [
    | inl here ↦
        let same = (text_eqb_iff k (backend_key old m)).0 here in
        get-move_prices_absent m ks (move_price old new k d) (rw (← same) (ground (arith, u)))
        ∙ ap (λ k. get (backend_key new m) (move_price old new k d)) same
        ∙ ap (get (backend_key new m)) (move_price-own old new m d)
        ∙ ap
            (λ o.
              get (backend_key new m)
                (put_price (backend_key new m) (remove (backend_key old m) d) o))
            e
        ∙ unfold put_price in get-set_self (backend_key new m) v (remove (backend_key old m) d)
    | inr elsewhere ↦
        get-move_prices_present m v ks (move_price old new k d) (ground (arith, u))
          (ground (arith, h, elsewhere))
          (get-move_price old new (backend_key old m) k d (λ rest own. (
            (λ same. let hit = (text_eqb_iff k (backend_key old m)).1 (sym same) in cc),
            apart m rest,
          ))
            ∙ e)
  ]

keys-distinct : (d : Dict Text PricingEntry) → IsDict d → distinct (keys d) ≡ true
unfolding distinct
keys-distinct [] h = refl
keys-distinct ((k, v) ∷ d) h = ground (arith, h.0, contains-keys k d, keys-distinct d h.1)

abbrev price_or_none : Option PricingEntry → PricingEntry
price_or_none none = no_pricing
price_or_none (some entry) = entry

-- If a provider is renamed, the ids hold no colon, the prices are a dict and none stands under the
-- new name of one of its models, then that model costs under the new name what it cost under the old.
pub rename_entity-pricing_for :
    (old new model : Text) (config after : GatewayConfig) (r : RateLimit)
    → contains colon old ≡ false
    → contains colon new ≡ false
    → IsDict config.pricing
    → get (backend_key new model) config.pricing ≡ none
    → (rename_entity of_provider old new config r).0 ≡ saved after
    → pricing_for after new model ≡ pricing_for config old model
unfolding pricing_for with_provider_renamed
rename_entity-pricing_for old new model config after r hold hnew dict fresh h =
    let (differ, e, free) = rename_entity-saved old new config after r h in
    let apart : (m n : Text) → backend_key old m ≢ backend_key new n = λ m n clash.
      let same = (backend_key_injective old new m n hold hnew clash).0 in
      ground (arith, differ, text_eqb_iff old new) in
    let d = config.pricing in
    let ks = keys d in
    let k = backend_key old model in
    let moved : get (backend_key new model) (move_prices old new ks d) ≡ get k d =
      elim (Option-cases (get k d)) [
        | inl missing ↦
            get-move_prices_absent old new apart model ks d (
              contains-keys k d
              ∙ has-get k d
              ∙ ap (λ o. elim o [ none ↦ false | some v ↦ true ]) missing)
            ∙ fresh
            ∙ sym missing
        | inr (v, there) ↦
            get-move_prices_present old new apart model v ks d (keys-distinct d dict)
              (contains-keys k d
                ∙ has-get k d
                ∙ ap (λ o. elim o [ none ↦ false | some v ↦ true ]) there)
              there
            ∙ sym there
      ] in
    ap (λ c. pricing_for c new model) e ∙ ap price_or_none moved
