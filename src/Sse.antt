-- ===== src/Sse.antt =====
-- localgateway/sse.py: the incremental parser of server-sent events. Bytes and characters are
-- numbers; `decode` and `strip` of Python's texts are arguments.
pub mod Scan
pub mod Splits
use local_gateway.Prelude.{
  eqb, if◌then◌else◌, ◌==◌, nat_eq, int_eq, Text, text_eq, length, take, drop, is_empty, ℕ, zero,
  suc, Bool, false, ◌&&◌, ◌||◌, Option, none, some, List, [], ◌∷◌, ◌++◌, map, arith,
}

abbrev pub lf : ℕ
lf = 10

abbrev pub cr : ℕ
cr = 13

unfoldable pub starts_with : ℕ → Text → Bool
starts_with c [] = false
starts_with c (d ∷ ds) = eqb d c

unfoldable pub ends_with : ℕ → Text → Bool
ends_with c [] = false
ends_with c (d ∷ ds) = if is_empty ds then eqb d c else ends_with c ds

-- self._buf[:-1]
unfoldable pub drop_last : Text → Text
drop_last [] = []
drop_last (d ∷ ds) = if is_empty ds then [] else d ∷ drop_last ds

-- .replace(b"\r\n", b"\n")
crlf_to_lf : Text → Text
crlf_to_lf [] = []
crlf_to_lf (c ∷ cs) =
    let rest = crlf_to_lf cs in if eqb c cr && starts_with lf cs then rest else c ∷ rest

-- .replace(b"\r", b"\n")
cr_to_lf : ℕ → ℕ
cr_to_lf c = if eqb c cr then lf else c

unfoldable pub normalise : Text → Text
unfolding crlf_to_lf cr_to_lf
normalise chunk = map cr_to_lf (crlf_to_lf chunk)

unfoldable pub cons_block : ℕ → Option (Text × Text) → Option (Text × Text)
cons_block c none = none
cons_block c (some (raw, rest)) = some (c ∷ raw, rest)

-- .split(b"\n\n", 1), where there is a blank line.
unfoldable pub split_block : Text → Option (Text × Text)
split_block [] = none
split_block (c ∷ cs) =
    if eqb c lf && starts_with lf cs then some ([], drop 1 cs) else cons_block c (split_block cs)

-- The loop of `feed`, on fuel: the blocks, and the bytes that are left.
unfoldable pub drain : ℕ → Text → List Text × Text
drain zero buf = ([], buf)
drain (suc fuel) buf = elim (split_block buf) [
  | none ↦ ([], buf)
  | some (raw, rest) ↦ (raw ∷ (drain fuel rest).0, (drain fuel rest).1)
]

-- The buffer and the chunk, before the loop.
unfoldable pub join_chunk : Text → Text → Text
join_chunk buf chunk =
    if is_empty chunk
    then buf
    else if ends_with cr buf
    then (drop_last buf ++ lf ∷ [])
      ++ normalise (if starts_with lf chunk then drop 1 chunk else chunk)
    else buf ++ normalise chunk

-- The blocks that a chunk completes, and the buffer after it: a block has at least two bytes, so that
-- the length of the buffer is enough fuel.
unfoldable pub feed_blocks : Text → Text → List Text × Text
feed_blocks buf chunk = let joined = join_chunk buf chunk in drain (length joined) joined

pub record SseEvent : Type 0 where
  pub data_text : Text
  pub done : Bool
  pub raw : Option Text

-- text.split("\n"), from the current line on.
split_lines : Text → Text → List Text
split_lines line [] = line ∷ []
split_lines line (c ∷ cs) =
    if eqb c lf then line ∷ split_lines [] cs else split_lines (line ++ c ∷ []) cs

abbrev data_prefix : Text
data_prefix = b'd' ∷ b'a' ∷ b't' ∷ b'a' ∷ b':' ∷ []

data_lines : List Text → List Text
data_lines [] = []
data_lines (line ∷ lines) =
    let rest = data_lines lines in
    if is_empty line || starts_with b':' line
    then rest
    else if take 5 line == data_prefix
    then (if starts_with b' ' (drop 5 line) then drop 6 line else drop 5 line) ∷ rest
    else rest

join_lines : List Text → Text
join_lines [] = []
join_lines (line ∷ lines) = if is_empty lines then line else line ++ lf ∷ join_lines lines

abbrev done_text : Text
done_text = b'[' ∷ b'D' ∷ b'O' ∷ b'N' ∷ b'E' ∷ b']' ∷ []

module _ (decode strip : Text → Text) where
  unfoldable pub parse_block : Text → Option SseEvent
  unfolding split_lines data_lines join_lines
  parse_block raw =
      let lines = data_lines (split_lines [] (decode raw)) in
      let text = join_lines lines in
      if is_empty lines
      then none
      else some (record { data_text = text; done = strip text == done_text; raw = none })

  unfoldable pub events_of : List Text → List SseEvent
  events_of [] = []
  events_of (raw ∷ raws) = elim (parse_block raw) [
    | none ↦ events_of raws
    | some ev ↦ record ev { raw = some (raw ++ lf ∷ lf ∷ []) } ∷ events_of raws
  ]

  unfoldable pub feed : Text → Text → List SseEvent × Text
  feed buf chunk = let r = feed_blocks buf chunk in (events_of r.0, r.1)
