-- ===== src/Streaming/Resolve/Defaults.antt =====
-- Which value of a parameter streaming.py sends: the client's, or the model's default.
use local_gateway.Prelude.{
  if◌then◌else◌, ◌==◌, nat_eq, int_eq, Text, text_eqb_iff, text_eq, contains, ◌≡◌, refl, sym, ap,
  ◌∙◌, Bool, true, false, not, ◌||◌, Option, none, some, List, [], ◌∷◌, arith,
}
use local_gateway.Dict.{Dict, get, has}
use local_gateway.Dict.Laws.{get-set, IsDict, get-absent}
use local_gateway.Streaming.Resolve.{is_unset, apply_one, apply_default_params}

module _ {ℓ} {V : Type ℓ} (blocked allowed : List Text) where
  -- The value of a key, with its default.
  unfoldable pub merged : Text → Option (Option V) → Option (Option V) → Option (Option V)
  merged key default own =
      if contains key blocked || not (contains key allowed)
      then own
      else if is_unset own
      then elim default [ none ↦ own | some v ↦ some v ]
      else own

  get-apply_one :
      (j key : Text) (value : Option V) (body : Dict Text (Option V))
      → get j (apply_one blocked allowed key value body)
        ≡ (if key == j then merged j (some value) (get j body) else get j body)
  unfolding apply_one merged
  get-apply_one j key value body = ground (
    arith,
    get-set key j value body,
    text_eqb_iff key j,
    ap (λ i. get i body),
    ap (λ i. contains i blocked),
    ap (λ i. contains i allowed),
  )

  merged-none : (j : Text) (own : Option (Option V)) → merged j none own ≡ own
  unfolding merged
  merged-none j own = ground arith

  -- The default of a key that comes later is none.
  merged_twice :
      (same : Bool) (j : Text) (value : Option V) (default own : Option (Option V))
      → (same ≡ true → default ≡ none)
      → merged j default (if same then merged j (some value) own else own)
        ≡ merged j (if same then some value else default) own
  merged_twice true j value default own h =
      ap (λ o. merged j o (merged j (some value) own)) (h refl)
      ∙ merged-none j (merged j (some value) own)
  merged_twice false j value default own h = refl

  -- In the body with the defaults a parameter has the client's value if the client gave one, that is not
  -- null; otherwise the default, if the key may be set by default and the model has one.
  pub get-apply_default_params :
      (j : Text) (defaults body : Dict Text (Option V))
      → IsDict defaults
      → get j (apply_default_params blocked allowed body defaults)
        ≡ merged j (get j defaults) (get j body)
  unfolding apply_default_params get
  get-apply_default_params j [] body d = sym (merged-none j (get j body))
  get-apply_default_params j ((key, value) ∷ defaults) body d =
      get-apply_default_params j defaults (apply_one blocked allowed key value body) d.1
      ∙ ap (merged j (get j defaults)) (get-apply_one j key value body)
      ∙ merged_twice (key == j) j value (get j defaults) (get j body) (λ same.
        get-absent j defaults (ap (λ i. has i defaults) (sym ((text_eqb_iff key j).0 same)) ∙ d.0))
