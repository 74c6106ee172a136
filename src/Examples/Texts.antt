-- ===== src/Examples/Texts.antt =====
-- Answers of a language model, some of them cut off: tests, and the theorems at concrete inputs.
use hmta_service.Json.Reading.{Reading, outside_with, square, curly, outside_strings, IsBalanced}
use hmta_service.Prelude.{[], ◌≢◌, ◌∷◌, String, Option, none, some, ◌≡◌, refl, ◌==◌, if◌then◌else◌}
use hmta_service.Json.{to_brace, extract_json, close_truncated_json, from_brace}
use hmta_service.Json.Laws.{truncated_is_empty, close_truncated_json_lem}

abbrev cut_off : String
cut_off = "Here: {\"nodes\": [1, {\"a}"

abbrev tail : String
tail = "{\"nodes\": [1, {\"a}"

-- Two texts that parse, and nothing else.
abbrev loads : String → Option String
loads s = if s == "{}" then some "empty" else if s == "{\"nodes\": [1]}" then some "nodes" else none

abbrev no_fence : String → Option String
no_fence s = none

closes_brackets : close_truncated_json "{\"nodes\": [1" ≡ "{\"nodes\": [1]}"
unfolding close_truncated_json
closes_brackets = refl

finds_object : extract_json loads no_fence "So: {\"nodes\": [1]} it is" ≡ some "nodes"
unfolding extract_json
finds_object = refl

-- The list could be closed, but the "{" alone comes first.
loses_object : extract_json loads no_fence "{\"nodes\": [1" ≡ some "empty"
unfolding extract_json
loses_object = refl

abbrev two_open : Reading
two_open = outside_with (square ∷ curly ∷ [])

close_truncated_json_lem_example :
    (two_open.place ≡ outside_strings → IsBalanced (close_truncated_json "{\"a\": ["))
    × (two_open.place ≢ outside_strings → ¬ IsBalanced (close_truncated_json "{\"a\": ["))
close_truncated_json_lem_example = close_truncated_json_lem "{\"a\": [" two_open refl

truncated_is_empty_example : extract_json loads no_fence cut_off ≡ some "empty"
unfolding from_brace to_brace
truncated_is_empty_example =
    truncated_is_empty loads no_fence cut_off tail "empty" refl refl refl refl refl
