-- ===== src/Sse/Splits.antt =====
-- A stream that sse.py is fed in chunks.
use local_gateway.Prelude.{
  eqb, Bool-cases, nat_eq, int_eq, Text, text_eq, length, ℕ, ◌≡◌, refl, sym, ap, ◌∙◌, inl, inr,
  Bool, true, false, not, ◌&&◌, List, [], ◌∷◌, ◌++◌, map, arith,
}
use mathlib.Core.List.{append-nil}
use local_gateway.Sse.{
  lf, cr, ends_with, crlf_to_lf, cr_to_lf, normalise, join_chunk, feed_blocks, starts_with, drain,
}
use local_gateway.Sse.Scan.{scan, scan-append, scan-rest, drain-scan}

-- No byte is a carriage return.
unfoldable pub no_cr : Text → Bool
no_cr [] = true
no_cr (c ∷ cs) = not (eqb c cr) && no_cr cs

unfoldable pub all_no_cr : List Text → Bool
all_no_cr [] = true
all_no_cr (chunk ∷ chunks) = no_cr chunk && all_no_cr chunks

-- The blocks of all chunks, and the buffer after them.
unfoldable pub feed_all : Text → List Text → List Text × Text
feed_all buf [] = ([], buf)
feed_all buf (chunk ∷ chunks) = (
  (feed_blocks buf chunk).0 ++ (feed_all (feed_blocks buf chunk).1 chunks).0,
  (feed_all (feed_blocks buf chunk).1 chunks).1,
)

unfoldable pub concat : List Text → Text
concat [] = []
concat (chunk ∷ chunks) = chunk ++ concat chunks

no_cr_head : (c : ℕ) (cs : Text) → no_cr (c ∷ cs) ≡ true → (eqb c cr ≡ false) × (no_cr cs ≡ true)
unfolding no_cr
no_cr_head c cs h = (ground (arith, h), ground (arith, h))

no_cr-append : (xs ys : Text) → no_cr xs ≡ true → no_cr ys ≡ true → no_cr (xs ++ ys) ≡ true
unfolding no_cr
no_cr-append [] ys hx hy = hy
no_cr-append (c ∷ xs) ys hx hy =
    let h = no_cr_head c xs hx in rw (h.0, no_cr-append xs ys h.1 hy) refl

normalise-no_cr : (xs : Text) → no_cr xs ≡ true → normalise xs ≡ xs
unfolding normalise crlf_to_lf cr_to_lf
normalise-no_cr [] h = refl
normalise-no_cr (c ∷ cs) h =
    let p = no_cr_head c cs h in rw (p.0, p.0) (ap (λ l. c ∷ l) (normalise-no_cr cs p.1))

ends_with-no_cr : (xs : Text) → no_cr xs ≡ true → ends_with cr xs ≡ false
unfolding ends_with
ends_with-no_cr [] h = refl
ends_with-no_cr (c ∷ []) h = (no_cr_head c [] h).0
ends_with-no_cr (c ∷ (d ∷ ds)) h = ends_with-no_cr (d ∷ ds) (no_cr_head c (d ∷ ds) h).1

join_chunk-no_cr :
    (buf chunk : Text) → no_cr buf ≡ true → no_cr chunk ≡ true → join_chunk buf chunk ≡ buf ++ chunk
unfolding join_chunk
join_chunk-no_cr buf [] hb hc = sym (append-nil buf)
join_chunk-no_cr buf (c ∷ cs) hb hc =
    rw (ends_with-no_cr buf hb) (ap (λ l. buf ++ l) (normalise-no_cr (c ∷ cs) hc))

no_cr-scan : (buf xs : Text) → no_cr buf ≡ true → no_cr xs ≡ true → no_cr (scan buf xs).1 ≡ true
unfolding scan no_cr
no_cr-scan buf [] hb hx = hb
no_cr-scan buf (c ∷ xs) hb hx =
    let h = no_cr_head c xs hx in
    let one : no_cr (c ∷ []) ≡ true = unfold no_cr in rw h.0 refl in
    elim (Bool-cases (ends_with lf buf && eqb c lf)) [
      | inl e ↦ rw e (no_cr-scan [] xs refl h.1)
      | inr e ↦ rw e (no_cr-scan (buf ++ c ∷ []) xs (no_cr-append buf (c ∷ []) hb one) h.1)
    ]

feed_blocks-scan :
    (buf chunk : Text)
    → scan [] buf ≡ ([], buf)
    → no_cr buf ≡ true
    → no_cr chunk ≡ true
    → feed_blocks buf chunk ≡ scan buf chunk
unfolding feed_blocks
feed_blocks-scan buf chunk h hb hc = rw (join_chunk-no_cr buf chunk hb hc) (
    drain-scan (length (buf ++ chunk)) (buf ++ chunk) (omega arith)
    ∙ scan-append [] buf chunk
    ∙ rw h refl)

feed_all-scan :
    (buf : Text) (chunks : List Text)
    → scan [] buf ≡ ([], buf)
    → no_cr buf ≡ true
    → all_no_cr chunks ≡ true
    → feed_all buf chunks ≡ scan buf (concat chunks)
unfolding feed_all concat all_no_cr
feed_all-scan buf [] h hb hc = unfold scan in refl
feed_all-scan buf (chunk ∷ chunks) h hb hc =
    let first : no_cr chunk ≡ true = ground (arith, hc) in
    let later : all_no_cr chunks ≡ true = ground (arith, hc) in
    rw (feed_blocks-scan buf chunk h hb first) (
      rw
        (feed_all-scan (scan buf chunk).1 chunks (scan-rest buf chunk h)
          (no_cr-scan buf chunk hb first) later)
        (sym (scan-append buf chunk (concat chunks))))

all_no_cr-concat : (chunks : List Text) → all_no_cr chunks ≡ true → no_cr (concat chunks) ≡ true
unfolding all_no_cr concat
all_no_cr-concat [] h = unfold no_cr in refl
all_no_cr-concat (chunk ∷ chunks) h =
    no_cr-append chunk (concat chunks) (ground (arith, h))
      (all_no_cr-concat chunks (ground (arith, h)))

-- A stream without carriage returns gives the same blocks, and leaves the same buffer, however it is
-- cut into chunks.
pub feed_all-concat :
    (chunks : List Text)
    → all_no_cr chunks ≡ true
    → feed_all [] chunks ≡ feed_blocks [] (concat chunks)
feed_all-concat chunks h =
    feed_all-scan [] chunks (unfold scan in refl) (unfold no_cr in refl) h
    ∙ sym (
        feed_blocks-scan [] (concat chunks) (unfold scan in refl) (unfold no_cr in refl)
          (all_no_cr-concat chunks h))

no_cr-map : (xs : Text) → no_cr (map cr_to_lf xs) ≡ true
unfolding no_cr cr_to_lf
no_cr-map [] = refl
no_cr-map (c ∷ xs) = ground (arith, no_cr-map xs)

no_cr-normalise : (chunk : Text) → no_cr (normalise chunk) ≡ true
unfolding normalise
no_cr-normalise chunk = no_cr-map (crlf_to_lf chunk)

no_cr-feed_blocks : (buf chunk : Text) → no_cr buf ≡ true → no_cr (feed_blocks buf chunk).1 ≡ true
unfolding feed_blocks join_chunk no_cr
no_cr-feed_blocks buf [] h =
    rw (drain-scan (length buf) buf (omega arith)) (no_cr-scan [] buf refl h)
no_cr-feed_blocks buf (c ∷ cs) h =
    let joined = buf ++ normalise (c ∷ cs) in
    rw (ends_with-no_cr buf h, drain-scan (length joined) joined (omega arith))
      (no_cr-scan [] joined refl
        (no_cr-append buf (normalise (c ∷ cs)) h (no_cr-normalise (c ∷ cs))))

no_cr-feed_all_from :
    (buf : Text) (chunks : List Text) → no_cr buf ≡ true → no_cr (feed_all buf chunks).1 ≡ true
unfolding feed_all
no_cr-feed_all_from buf [] h = h
no_cr-feed_all_from buf (chunk ∷ chunks) h =
    no_cr-feed_all_from (feed_blocks buf chunk).1 chunks (no_cr-feed_blocks buf chunk h)

normalise-cr :
    (text : Text)
    → ends_with cr text ≡ false
    → normalise (text ++ cr ∷ []) ≡ normalise (text ++ lf ∷ [])
unfolding normalise crlf_to_lf cr_to_lf ends_with starts_with
normalise-cr [] h = refl
normalise-cr (c ∷ []) h = rw (h) refl
normalise-cr (c ∷ (d ∷ ds)) h = elim (Bool-cases (eqb c cr && eqb d lf)) [
  | inl e ↦ rw e (normalise-cr (d ∷ ds) h)
  | inr e ↦ rw e (ap (λ l. cr_to_lf c ∷ l) (normalise-cr (d ∷ ds) h))
]

join_chunk-cr :
    (buf text : Text)
    → no_cr buf ≡ true
    → ends_with cr text ≡ false
    → join_chunk buf (text ++ cr ∷ []) ≡ join_chunk buf (text ++ lf ∷ [])
unfolding join_chunk
join_chunk-cr buf [] hb h = rw (ends_with-no_cr buf hb) (ap (λ l. buf ++ l) (normalise-cr [] h))
join_chunk-cr buf (c ∷ cs) hb h =
    rw (ends_with-no_cr buf hb) (ap (λ l. buf ++ l) (normalise-cr (c ∷ cs) h))

-- Whatever was fed, the buffer does not end with a carriage return, so that the case of a buffer that
-- does never comes up; and a chunk that ends with a single return gives the blocks and the buffer that
-- it would give with a line feed in its place, before the next chunk is seen.
pub ends_with-feed_all :
    (chunks : List Text) (text : Text)
    → ends_with cr text ≡ false
    → let buf : Text = (feed_all [] chunks).1 in
      (ends_with cr buf ≡ false)
      × (feed_blocks buf (text ++ cr ∷ []) ≡ feed_blocks buf (text ++ lf ∷ []))
unfolding feed_blocks
ends_with-feed_all chunks text h =
    let clean = no_cr-feed_all_from [] chunks (unfold no_cr in refl) in
    (
      ends_with-no_cr (feed_all [] chunks).1 clean,
      ap (λ joined. drain (length joined) joined)
          (join_chunk-cr (feed_all [] chunks).1 text clean h),
    )
