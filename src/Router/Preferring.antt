-- ===== src/Router/Preferring.antt =====
-- Which candidates of router.py the `order` of a request prefers.
use local_gateway.Prelude.{
  Bool-cases, ◌==◌, ==_refl, nat_eq, int_eq, Text, text_eqb_iff, text_eq, contains, select, any,
  concat_map, ◌+◌, ◌≡◌, refl, sym, ap, ◌∙◌, fun_ext, inl, inr, Bool, true, false, not, ◌&&◌, ◌||◌,
  List, [], ◌∷◌, ◌++◌, arith,
}
use mathlib.Core.List.{append-nil, append_assoc}
use local_gateway.Prelude.Lists.{any-append}
use local_gateway.Prelude.Count.{count, count-append, count-select_or}
use local_gateway.Dict.{Dict, get, get_default}
use local_gateway.Dict.Laws.{get_default-set}
use local_gateway.Router.Types.{Candidate}
use local_gateway.Router.Candidates.{Tiers, push, group_by_provider, collect_preferred}
use local_gateway.Router.Selection.{is_preferred}
use local_gateway.Router.Tiering.{all_candidates}

-- No provider stands twice in an order.
abbrev pub Distinct : List Text → Type 0
Distinct [] = Unit
Distinct (x ∷ xs) = (contains x xs ≡ false) × Distinct xs

-- The provider of a candidate stands in an order.
unfoldable pub in_order : List Text → Candidate → Bool
in_order order c = contains c.provider.id order

abbrev of_provider : Text → Candidate → Bool
of_provider pid c = c.provider.id == pid

group_by_provider-get :
    (pid : Text) (cs : List Candidate) (d : Dict Text (List Candidate))
    → get_default pid [] (group_by_provider cs d)
      ≡ get_default pid [] d ++ select (of_provider pid) cs
unfolding group_by_provider select push
group_by_provider-get pid [] d = sym (append-nil (get_default pid [] d))
group_by_provider-get pid (c ∷ cs) d =
    let k = c.provider.id in
    let v = get_default k [] d ++ c ∷ [] in
    elim (Bool-cases (k == pid)) [
      | inl same ↦
          let e : k ≡ pid = (text_eqb_iff k pid).0 same in
          rw (group_by_provider-get pid cs (push k c d), get_default-set k pid [] v d, same)
            (append_assoc (get_default k [] d) (c ∷ []) (select (of_provider pid) cs)
              ∙ ap (λ j. get_default j [] d ++ c ∷ select (of_provider pid) cs) e)
      | inr other ↦
          rw (group_by_provider-get pid cs (push k c d), get_default-set k pid [] v d, other)
    ]

collect_preferred_lem :
    (order : List Text) (tiers : Tiers)
    → collect_preferred order tiers
      ≡ concat_map (λ pid. select (of_provider pid) (all_candidates tiers)) order
unfolding collect_preferred all_candidates
collect_preferred_lem order tiers =
    ap (λ f. concat_map f order)
      (fun_ext λ pid.
        group_by_provider-get pid (all_candidates tiers) [] ∙ (unfold get_default get in refl))

count-in_no_order :
    (p : Candidate → Bool) (cs : List Candidate) → count p (select (in_order []) cs) ≡ 0
unfolding count select in_order contains
count-in_no_order p [] = refl
count-in_no_order p (c ∷ cs) = count-in_no_order p cs

count-by_provider :
    (p : Candidate → Bool) (cs : List Candidate) (order : List Text)
    → Distinct order
    → count p (concat_map (λ pid. select (of_provider pid) cs) order)
      ≡ count p (select (in_order order) cs)
unfolding concat_map
count-by_provider p cs [] d = unfold count in sym (count-in_no_order p cs)
count-by_provider p cs (pid ∷ order) d =
    count-append p (select (of_provider pid) cs) (concat_map (λ i. select (of_provider i) cs) order)
    ∙ ap (λ n. count p (select (of_provider pid) cs) + n) (count-by_provider p cs order d.1)
    ∙ count-select_or p (of_provider pid) (in_order order) (in_order (pid ∷ order)) cs
        (λ c.
          unfold in_order contains in
          ground (arith, text_eqb_iff pid c.provider.id, text_eqb_iff c.provider.id pid))
        (λ c h. unfold in_order in rw ((text_eqb_iff c.provider.id pid).0 h) d.0)

-- With no provider twice in the order, the preferred candidates are those of its providers, once.
pub count-collect_preferred :
    (p : Candidate → Bool) (order : List Text) (tiers : Tiers)
    → Distinct order
    → count p (collect_preferred order tiers)
      ≡ count p (select (in_order order) (all_candidates tiers))
count-collect_preferred p order tiers d =
    ap (count p) (collect_preferred_lem order tiers)
    ∙ count-by_provider p (all_candidates tiers) order d

is_preferred-of_provider :
    (pid : Text) (cs : List Candidate) (c : Candidate)
    → is_preferred (select (of_provider pid) cs) c ≡ of_provider pid c && is_preferred cs c
unfolding is_preferred any select
is_preferred-of_provider pid [] c = ground arith
is_preferred-of_provider pid (x ∷ cs) c = ground (
  arith,
  is_preferred-of_provider pid cs c,
  text_eqb_iff x.provider.id c.provider.id,
  text_eqb_iff x.provider.id pid,
  text_eqb_iff c.provider.id pid,
)

is_preferred-append :
    (xs ys : List Candidate) (c : Candidate)
    → is_preferred (xs ++ ys) c ≡ (is_preferred xs c || is_preferred ys c)
unfolding is_preferred
is_preferred-append xs ys c =
    any-append (λ p. p.provider.id == c.provider.id && (p.backend.model == c.backend.model)) xs ys

is_preferred-by_provider :
    (order : List Text) (cs : List Candidate) (c : Candidate)
    → is_preferred (concat_map (λ pid. select (of_provider pid) cs) order) c
      ≡ in_order order c && is_preferred cs c
unfolding concat_map in_order contains
is_preferred-by_provider [] cs c = unfold is_preferred any in refl
is_preferred-by_provider (pid ∷ order) cs c = ground (
  arith,
  is_preferred-append (select (of_provider pid) cs)
      (concat_map (λ i. select (of_provider i) cs) order) c,
  is_preferred-of_provider pid cs c,
  is_preferred-by_provider order cs c,
  text_eqb_iff pid c.provider.id,
  text_eqb_iff c.provider.id pid,
)

-- A candidate is preferred exactly if its provider stands in the order and it is, by its key, one of
-- all candidates.
pub is_preferred-in_order :
    (order : List Text) (tiers : Tiers) (c : Candidate)
    → is_preferred (collect_preferred order tiers) c
      ≡ in_order order c && is_preferred (all_candidates tiers) c
is_preferred-in_order order tiers c =
    ap (λ l. is_preferred l c) (collect_preferred_lem order tiers)
    ∙ is_preferred-by_provider order (all_candidates tiers) c

count-select-not_preferred_from :
    (p : Candidate → Bool) (order : List Text) (all cs pre : List Candidate)
    → all ≡ pre ++ cs
    → count p (select (λ c. not (in_order order c && is_preferred all c)) cs)
      ≡ count p (select (λ c. not (in_order order c)) cs)
unfolding count select
count-select-not_preferred_from p order all [] pre e = refl
count-select-not_preferred_from p order all (c ∷ cs) pre e =
    let self : is_preferred all c ≡ true =
      rw (e, is_preferred-append pre (c ∷ cs) c)
        (unfold is_preferred any in
          ground (arith, ==_refl c.provider.id, ==_refl c.backend.model)) in
    ground (
      arith,
      self,
      count-select-not_preferred_from p order all cs (pre ++ c ∷ [])
          (e ∙ sym (append_assoc pre (c ∷ []) cs)),
    )

-- The candidates that are not preferred are those of the providers outside the order.
pub count-not_preferred :
    (p : Candidate → Bool) (order : List Text) (tiers : Tiers)
    → count p
        (select (λ c. not (is_preferred (collect_preferred order tiers) c)) (all_candidates tiers))
      ≡ count p (select (λ c. not (in_order order c)) (all_candidates tiers))
count-not_preferred p order tiers =
    let all = all_candidates tiers in
    ap (λ f. count p (select f all)) (fun_ext λ c. ap not (is_preferred-in_order order tiers c))
    ∙ count-select-not_preferred_from p order all all [] refl
