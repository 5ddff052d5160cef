-- ===== src/Tests/Streams.antt =====
-- Inputs for the parser of sse.py.
use local_gateway.Prelude.{nat_eq, int_eq, Text, text_eq, ◌≡◌, refl, false, List, [], ◌∷◌}
use local_gateway.Sse.{cr, ends_with, feed_blocks}
use local_gateway.Sse.Splits.{feed_all, concat, all_no_cr, feed_all-concat, ends_with-feed_all}

-- Two events, cut in the middle of the blank line between them.
abbrev chunks : List Text
chunks = (b'a' ∷ 10 ∷ []) ∷ (10 ∷ b'b' ∷ 10 ∷ []) ∷ (10 ∷ []) ∷ []

feed_all-concat_example : feed_all [] chunks ≡ feed_blocks [] (concat chunks)
unfolding all_no_cr local_gateway.Sse.Splits.no_cr
feed_all-concat_example = feed_all-concat chunks refl

-- A line ending of two bytes, cut in two.
abbrev halves : List Text
halves = (b'a' ∷ 13 ∷ []) ∷ (10 ∷ b'b' ∷ []) ∷ []

ends_with-feed_all_example :
    (ends_with cr (feed_all [] halves).1 ≡ false)
    × (feed_blocks (feed_all [] halves).1 (b'c' ∷ 13 ∷ [])
        ≡ feed_blocks (feed_all [] halves).1 (b'c' ∷ 10 ∷ []))
unfolding ends_with
ends_with-feed_all_example = ends_with-feed_all halves (b'c' ∷ []) refl
