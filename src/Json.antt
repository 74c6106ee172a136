-- ===== src/Json.antt =====
-- app/generation/graph/json_utils.py: how a JSON object is got out of a language model's answer.
pub mod Trees
pub mod Reading
pub mod Laws
use Prim.Native.Char.{Char, code}
use hmta_service.Prelude.{
  leb, ◌||◌, ℕ, String, Option, none, some, Bool, true, false, List, [], zero, suc, ◌∷◌, ◌&&◌, not,
  nat_eq, if◌then◌else◌,
}
use hmta_service.Prelude.Text.{concat}
use Prim.Native.Nat.{pred}

-- A bracket that is still open, by the one that closes it.
pub data Closer : Type 0 where
  brace bracket : Closer

-- The state of the scan_text; the bracket that was opened last stands first.
pub record TextScan : Type 0 where
  pub stack : List Closer
  pub in_string : Bool
  pub escape_next : Bool

abbrev pub start : TextScan
start = record { stack = []; in_string = false; escape_next = false }

abbrev pub is : ℕ → Char → Bool
is n c = nat_eq (code c) n

abbrev pop : List Closer → List Closer
pop [] = []
pop (k ∷ ks) = ks

-- A character outside of the texts.
abbrev outside : Char → TextScan → TextScan
outside c w =
    if is b'{' c
    then record w { stack = brace ∷ w.stack }
    else if is b'[' c
    then record w { stack = bracket ∷ w.stack }
    else if is b'}' c || is b']' c
    then record w { stack = pop w.stack }
    else w

unfoldable pub scan_char : Char → TextScan → TextScan
scan_char c w =
    if w.escape_next
    then record w { escape_next = false }
    else if is b'\\' c && w.in_string
    then record w { escape_next = true }
    else if is b'"' c
    then record w { in_string = not w.in_string }
    else if w.in_string
    then w
    else outside c w

abbrev pub scan_text : String → TextScan → TextScan
unfolding scan_char
scan_text String.[] w = w
scan_text (String.◌∷◌ c s) w = scan_text s (scan_char c w)

abbrev pub closers : List Closer → String
closers [] = ""
closers (brace ∷ ks) = String.◌∷◌ "}" (closers ks)
closers (bracket ∷ ks) = String.◌∷◌ "]" (closers ks)

-- `_close_truncated_json`
unfoldable pub close_truncated_json : String → String
unfolding scan_char concat
close_truncated_json text = concat text (closers (scan_text text start).stack)

-- The text from its first "{" on.
unfoldable pub from_brace : String → Option String
from_brace String.[] = none
from_brace (String.◌∷◌ c s) = if is b'{' c then some (String.◌∷◌ "{" s) else from_brace s

abbrev map_option : (String → String) → Option String → Option String
map_option f none = none
map_option f (some s) = some (f s)

-- The text up to the "}" that closes what is open, if there is one.
unfoldable pub to_brace : ℕ → String → Option String
to_brace depth String.[] = none
to_brace depth (String.◌∷◌ c s) =
    let deeper = to_brace (suc depth) s in
    let higher = to_brace (pred depth) s in
    let same = to_brace depth s in
    map_option (String.◌∷◌ c) (
      if is b'{' c
      then deeper
      else if is b'}' c
      then (if leb depth 1 then some "" else higher)
      else same)

abbrev pub head : String → String
head String.[] = ""
head (String.◌∷◌ c s) = String.◌∷◌ c ""

-- The outermost span; where nothing closes it, Python's slice is the first character alone.
unfoldable pub outer_span : String → String
unfolding to_brace
outer_span s = elim (to_brace 0 s) [ some t ↦ t | none ↦ head s ]

module _ {Json : Type 0} (loads : String → Option Json) (fenced : String → Option String) where
  -- `_try_parse`
  unfoldable pub try_parse : String → Option Json
  unfolding close_truncated_json
  try_parse candidate = elim (loads candidate) [
    | some json ↦ some json
    | none ↦ loads (close_truncated_json candidate)
  ]

  abbrev pub first_parsed : List String → Option Json
  unfolding try_parse
  first_parsed [] = none
  first_parsed (s ∷ ss) =
      let rest = first_parsed ss in elim (try_parse s) [ some json ↦ some json | none ↦ rest ]

  abbrev pub optional : Option String → List String → List String
  optional none ss = ss
  optional (some s) ss = s ∷ ss

  abbrev pub spans : Option String → List String → List String
  spans none ss = ss
  spans (some s) ss = outer_span s ∷ s ∷ ss

  -- What `extract_json` tries, in this order.
  unfoldable pub candidates : String → List String
  unfolding from_brace outer_span
  candidates text = optional (fenced text) (spans (from_brace text) (text ∷ []))

  -- `extract_json` of a text; `none` is the `ValueError`.
  unfoldable pub extract_json : String → Option Json
  unfolding first_parsed candidates
  extract_json text = first_parsed (candidates text)
