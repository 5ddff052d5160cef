-- ===== src/Sse/Scan.antt =====
-- The loop of sse.py as a scan of the bytes, one after another.
use local_gateway.Prelude.{
  eqb, if◌then◌else◌, Bool-cases, nat_eq, int_eq, Text, text_eq, length, drop, ℕ, zero, suc, ◌≤◌,
  ◌<◌, ◌≡◌, refl, sym, ap, ◌∙◌, inl, inr, true, false, ◌&&◌, Option, none, some, List, [], ◌∷◌,
  ◌++◌, arith,
}
use mathlib.Core.List.{append-nil}
use local_gateway.Sse.{lf, starts_with, ends_with, drop_last, split_block, cons_block, drain}

-- A byte that completes a blank line ends a block.
unfoldable pub scan : Text → Text → List Text × Text
scan buf [] = ([], buf)
scan buf (c ∷ cs) =
    if ends_with lf buf && eqb c lf
    then (drop_last buf ∷ (scan [] cs).0, (scan [] cs).1)
    else scan (buf ++ c ∷ []) cs

pub scan-append :
    (buf xs ys : Text)
    → scan buf (xs ++ ys)
      ≡ ((scan buf xs).0 ++ (scan (scan buf xs).1 ys).0, (scan (scan buf xs).1 ys).1)
unfolding scan
scan-append buf [] ys = refl
scan-append buf (c ∷ xs) ys = elim (Bool-cases (ends_with lf buf && eqb c lf)) [
  | inl h ↦ rw (h, scan-append [] xs ys) refl
  | inr h ↦ rw h (scan-append (buf ++ c ∷ []) xs ys)
]

ends_with_last : (buf : Text) (c : ℕ) → ends_with lf (buf ++ c ∷ []) ≡ eqb c lf
unfolding ends_with
ends_with_last [] c = refl
ends_with_last (b ∷ []) c = refl
ends_with_last (b ∷ (d ∷ ds)) c = ends_with_last (d ∷ ds) c

drop_last_last : (buf : Text) (c : ℕ) → drop_last (buf ++ c ∷ []) ≡ buf
unfolding drop_last
drop_last_last [] c = refl
drop_last_last (b ∷ []) c = refl
drop_last_last (b ∷ (d ∷ ds)) c = ap (λ l. b ∷ l) (drop_last_last (d ∷ ds) c)

-- What is left has no blank line: a scan of it ends no block.
pub scan-rest :
    (buf xs : Text) → scan [] buf ≡ ([], buf) → scan [] (scan buf xs).1 ≡ ([], (scan buf xs).1)
unfolding scan
scan-rest buf [] h = h
scan-rest buf (c ∷ xs) h = elim (Bool-cases (ends_with lf buf && eqb c lf)) [
  | inl e ↦ rw e (scan-rest [] xs refl)
  | inr e ↦ rw e (scan-rest (buf ++ c ∷ []) xs (scan-append [] buf (c ∷ []) ∙ rw (h, e) refl))
]

cons_append : (buf : Text) (c : ℕ) (cs : Text) → (buf ++ c ∷ []) ++ cs ≡ buf ++ c ∷ cs
cons_append [] c cs = refl
cons_append (b ∷ buf) c cs = ap (λ l. b ∷ l) (cons_append buf c cs)

-- The scan of bytes that `split_block` finds no blank line in, and of those it splits.
unfoldable pub scan_split : Text → Option (Text × Text) → Text → List Text × Text
scan_split buf none cs = ([], buf ++ cs)
scan_split buf (some (raw, rest)) cs = ((buf ++ raw) ∷ (scan [] rest).0, (scan [] rest).1)

scan_split-cons_block :
    (buf : Text) (c : ℕ) (o : Option (Text × Text)) (cs : Text)
    → scan_split (buf ++ c ∷ []) o cs ≡ scan_split buf (cons_block c o) (c ∷ cs)
unfolding scan_split cons_block
scan_split-cons_block buf c none cs = ap (λ l. ([], l)) (cons_append buf c cs)
scan_split-cons_block buf c (some (raw, rest)) cs =
    ap (λ l. (l ∷ (scan [] rest).0, (scan [] rest).1)) (cons_append buf c raw)

scan_blank :
    (buf : Text) (c : ℕ) (cs : Text)
    → eqb c lf && starts_with lf cs ≡ true
    → scan (buf ++ c ∷ []) cs ≡ scan_split buf (some ([], drop 1 cs)) (c ∷ cs)
unfolding scan starts_with scan_split
scan_blank buf c [] h = absurd (ground (arith, h))
scan_blank buf c (d ∷ ds) h =
    let test : ends_with lf (buf ++ c ∷ []) && eqb d lf ≡ true =
      ap (λ b. b && eqb d lf) (ends_with_last buf c) ∙ h in
    rw test
      (ap (λ l. (l ∷ (scan [] ds).0, (scan [] ds).1)) (drop_last_last buf c ∙ sym (append-nil buf)))

pub scan-split_block :
    (buf cs : Text)
    → ends_with lf buf && starts_with lf cs ≡ false
    → scan buf cs ≡ scan_split buf (split_block cs) cs
unfolding scan split_block scan_split starts_with
scan-split_block buf [] h = ap (λ l. ([], l)) (sym (append-nil buf))
scan-split_block buf (c ∷ cs) h = rw h (elim (Bool-cases (eqb c lf && starts_with lf cs)) [
  | inl e ↦ rw e (scan_blank buf c cs e)
  | inr e ↦ rw e (
      scan-split_block (buf ++ c ∷ []) cs
        (ap (λ b. b && starts_with lf cs) (ends_with_last buf c) ∙ e)
      ∙ scan_split-cons_block buf c (split_block cs) cs)
])

-- The rest after a split is shorter.
unfoldable pub RestBelow : Option (Text × Text) → ℕ → Type 0
RestBelow none n = 0 ≤ n
RestBelow (some (raw, rest)) n = length rest < n

RestBelow-cons_block :
    (c : ℕ) (o : Option (Text × Text)) (n : ℕ) → RestBelow o n → RestBelow (cons_block c o) (suc n)
unfolding RestBelow cons_block
RestBelow-cons_block c none n h = omega arith
RestBelow-cons_block c (some (raw, rest)) n h = omega arith

length-drop : (cs : Text) → length (drop 1 cs) ≤ length cs
length-drop [] = omega arith
length-drop (c ∷ cs) = omega arith

RestBelow-split_block : (cs : Text) → RestBelow (split_block cs) (length cs)
unfolding split_block RestBelow
RestBelow-split_block [] = omega arith
RestBelow-split_block (c ∷ cs) = elim (Bool-cases (eqb c lf && starts_with lf cs)) [
  | inl e ↦ rw e (omega (arith, length-drop cs))
  | inr e ↦ rw e (RestBelow-cons_block c (split_block cs) (length cs) (RestBelow-split_block cs))
]

-- One turn of the loop, whose later turns are a scan.
drain_turn : ℕ → Text → Option (Text × Text) → List Text × Text
drain_turn fuel buf none = ([], buf)
drain_turn fuel buf (some (raw, rest)) = (raw ∷ (drain fuel rest).0, (drain fuel rest).1)

drain-drain_turn :
    (fuel : ℕ) (buf : Text) → drain (suc fuel) buf ≡ drain_turn fuel buf (split_block buf)
unfolding drain drain_turn
drain-drain_turn fuel buf = refl

-- The loop with fuel for the length of the buffer is the scan.
pub drain-scan : (fuel : ℕ) (buf : Text) → length buf ≤ fuel → drain fuel buf ≡ scan [] buf
unfolding drain scan drain_turn RestBelow scan_split
drain-scan zero [] h = refl
drain-scan zero (c ∷ cs) h = absurd (omega arith)
drain-scan (suc fuel) buf h =
    let turn : (o : Option (Text × Text))
        → RestBelow o (length buf)
        → drain_turn fuel buf o ≡ scan_split [] o buf =
      λ o. elim o as (λ x. RestBelow x (length buf) → drain_turn fuel buf x ≡ scan_split [] x buf) [
        | none ↦ λ b. refl
        | some (raw, rest) ↦ λ b. rw (drain-scan fuel rest (omega (arith, h, b))) refl
      ] in
    drain-drain_turn fuel buf
    ∙ turn (split_block buf) (RestBelow-split_block buf)
    ∙ sym (scan-split_block [] buf (unfold ends_with in refl))
