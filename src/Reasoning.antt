-- ===== src/Reasoning.antt =====
-- localgateway/reasoning.py: `normalize_delta` and `_normalize_obj`. A value of a JSON object is told
-- apart as far as the code looks at it; the texts in a block are strings.
pub mod Idempotent
use local_gateway.Prelude.{
  if◌then◌else◌, ◌==◌, nat_eq, int_eq, Text, text_eq, is_empty, concat_map, Bool, true, false, not,
  ◌&&◌, ◌||◌, Option, none, some, List, [], ◌∷◌, arith,
}
use local_gateway.Dict.{Dict, get, set}

-- An item of a list of thinking blocks: a dict with its `type`, `thinking` and `text`, a string, or
-- anything else.
pub data Block : Type 0 where
  fields : Option Text → Option Text → Option Text → Block
  bare : Text → Block
  other_block : Block

-- `blank` is null, false, 0 and an empty dict; `other` is any other value that Python takes as true.
pub data Value : Type 0 where
  blank other : Value
  text : Text → Value
  blocks : List Block → Value

abbrev pub Delta : Type 0
Delta = Dict Text Value

abbrev pub reasoning_content : Text
reasoning_content =
    b'r' ∷ b'e' ∷ b'a' ∷ b's' ∷ b'o' ∷ b'n' ∷ b'i' ∷ b'n' ∷ b'g' ∷ b'_' ∷ b'c' ∷ b'o' ∷ b'n' ∷ b't'
    ∷ b'e' ∷ b'n' ∷ b't' ∷ []

abbrev pub reasoning : Text
reasoning = b'r' ∷ b'e' ∷ b'a' ∷ b's' ∷ b'o' ∷ b'n' ∷ b'i' ∷ b'n' ∷ b'g' ∷ []

abbrev pub thinking : Text
thinking = b't' ∷ b'h' ∷ b'i' ∷ b'n' ∷ b'k' ∷ b'i' ∷ b'n' ∷ b'g' ∷ []

abbrev text_type : Text
text_type = b't' ∷ b'e' ∷ b'x' ∷ b't' ∷ []

abbrev pub reasoning_keys : List Text
reasoning_keys = reasoning_content ∷ reasoning ∷ thinking ∷ []

-- Python's truth of `delta.get(key)`.
unfoldable pub is_truthy : Option Value → Bool
is_truthy none = false
is_truthy (some blank) = false
is_truthy (some other) = true
is_truthy (some (text t)) = not (is_empty t)
is_truthy (some (blocks bs)) = not (is_empty bs)

abbrev or_empty : Option Text → Text
or_empty none = []
or_empty (some t) = t

-- block.get("type") in (None, "thinking", "text")
unfoldable pub is_thought : Option Text → Bool
is_thought none = true
is_thought (some t) = t == thinking || t == text_type

-- What a block adds to `parts`. A string is added even if it is empty.
unfoldable pub part : Block → List Text
part (fields type thought words) =
    let t = if is_empty (or_empty thought) then or_empty words else or_empty thought in
    if is_thought type && not (is_empty t) then t ∷ [] else []
part (bare t) = t ∷ []
part other_block = []

-- The value that one key gives, empty where it gives none.
unfoldable pub value_of : Option Value → Text
value_of (some (text t)) = t
value_of (some (blocks bs)) = concat_map (λ t. t) (concat_map part bs)
value_of _ = []

-- The loop over the keys, to the first that gives a value.
unfoldable pub first_value : List Text → Delta → Text
first_value [] delta = []
first_value (key ∷ keys) delta =
    let v = value_of (get key delta) in if is_empty v then first_value keys delta else v

-- if not delta.get(target): delta[target] = value
unfoldable pub fill : Text → Text → Delta × Bool → Delta × Bool
fill target value (delta, changed) =
    if is_truthy (get target delta) then (delta, changed) else (set target (text value) delta, true)

unfoldable pub normalize_delta : Delta → Delta × Bool
normalize_delta delta =
    let value = first_value reasoning_keys delta in
    if is_empty value
    then (delta, false)
    else fill reasoning value (fill reasoning_content value (delta, false))

-- A choice has a `delta`, a `message`, both or none that is a dict.
pub record Choice : Type 0 where
  pub delta : Option Delta
  pub message : Option Delta

unfoldable pub normalize_field : Option Delta → Option Delta × Bool
normalize_field none = (none, false)
normalize_field (some d) = let (d', changed) = normalize_delta d in (some d', changed)

unfoldable pub normalize_choices : List Choice → List Choice × Bool
normalize_choices [] = ([], false)
normalize_choices (c ∷ cs) =
    let (delta, a) = normalize_field c.delta in
    let (message, b) = normalize_field c.message in
    let (rest, changed) = normalize_choices cs in
    (record { delta = delta; message = message } ∷ rest, a || b || changed)

-- `_normalize_obj`: the choices of an object that are dicts, and its other fields.
unfoldable pub normalize_obj : List Choice × Delta → (List Choice × Delta) × Bool
normalize_obj (choices, top) =
    let (choices', a) = normalize_choices choices in
    let (top', b) = normalize_delta top in ((choices', top'), a || b)
