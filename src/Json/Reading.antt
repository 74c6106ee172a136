-- ===== src/Json/Reading.antt =====
-- How the brackets of a JSON text have to match: an account of its own, which the repair of
-- app/generation/graph/json_utils.py is measured by.
use Prim.Native.Char.{Char, code}
use hmta_service.Prelude.Options.{◌>>=◌}
use hmta_service.Prelude.{String, Option, none, some, List, [], ◌∷◌, ◌≡◌, nat_eq, if◌then◌else◌}

pub data Place : Type 0 where
  outside_strings inside_string after_backslash : Place

pub data Bracket : Type 0 where
  curly square : Bracket

-- Where the reading stands, and the brackets that are open, the last one first.
pub record Reading : Type 0 where
  pub place : Place
  pub opened : List Bracket

abbrev pub fresh : Reading
fresh = record { place = outside_strings; opened = [] }

abbrev pub outside_with : List Bracket → Reading
outside_with opened = record { place = outside_strings; opened = opened }

-- A bracket closes one of its own kind, and no other.
abbrev pub closes : Bracket → List Bracket → Option Reading
closes curly (curly ∷ ks) = some (outside_with ks)
closes square (square ∷ ks) = some (outside_with ks)
closes _ _ = none

abbrev pub reads_outside : Char → List Bracket → Option Reading
reads_outside c ks =
    if nat_eq (code c) b'"'
    then some (record { place = inside_string; opened = ks })
    else if nat_eq (code c) b'{'
    then some (outside_with (curly ∷ ks))
    else if nat_eq (code c) b'['
    then some (outside_with (square ∷ ks))
    else if nat_eq (code c) b'}'
    then closes curly ks
    else if nat_eq (code c) b']'
    then closes square ks
    else some (outside_with ks)

abbrev pub reads_inside : Char → List Bracket → Reading
reads_inside c ks =
    if nat_eq (code c) b'\\'
    then record { place = after_backslash; opened = ks }
    else if nat_eq (code c) b'"'
    then record { place = outside_strings; opened = ks }
    else record { place = inside_string; opened = ks }

abbrev pub reads_at : Place → Char → List Bracket → Option Reading
reads_at outside_strings c ks = reads_outside c ks
reads_at inside_string c ks = some (reads_inside c ks)
reads_at after_backslash c ks = some (record { place = inside_string; opened = ks })

-- `none`: a bracket closes nothing, or one of the other kind.
abbrev pub read_char : Char → Reading → Option Reading
read_char c r = reads_at r.place c r.opened

abbrev pub read_text : String → Reading → Option Reading
read_text String.[] r = some r
read_text (String.◌∷◌ c s) r = read_char c r >>= read_text s

-- Every bracket is closed by one of its kind, in order, and every string ends.
abbrev pub IsBalanced : String → Type 0
IsBalanced s = read_text s fresh ≡ some fresh
