-- ===== src/Json/Laws.antt =====
-- What the repair of a truncated text does, and what becomes of a text that is truncated.
use hmta_service.Json.Reading.{curly, square, outside_strings, inside_string, after_backslash}
use hmta_service.Prelude.Text.{concat}
use hmta_service.Json.{first_parsed, is, try_parse, outer_span, head, brace, bracket}
use hmta_service.Prelude.{
  map, ◌≢◌, subst, Bool-cases, inl, inr, if◌then◌else◌, String, Option, none, some, true, false,
  List, [], ◌∷◌, ◌≡◌, refl, arith, sym, ap, ◌∙◌,
}
use hmta_service.Json.{
  to_brace, start, closers, scan_text, from_brace, Char, Closer, scan_char, close_truncated_json,
  extract_json, TextScan,
}
use hmta_service.Prelude.Options.{>>=-eq-some, some-inj}
use hmta_service.Json.Reading.{
  IsBalanced, inside_string, outside_with, read_char, fresh, read_text, reads_at, outside_strings,
  Place, Reading, Bracket,
}

abbrev kind : Bracket → Closer
kind curly = brace
kind square = bracket

-- The scanner's state at a reading.
abbrev scan_of : Reading → TextScan
scan_of r = elim r.place [
  | outside_strings ↦ record { stack = map kind r.opened; in_string = false; escape_next = false }
  | inside_string ↦ record { stack = map kind r.opened; in_string = true; escape_next = false }
  | after_backslash ↦ record { stack = map kind r.opened; in_string = true; escape_next = true }
]

-- While the brackets match, the scanner agrees with the reading.
scan_char-reads_at :
    (p : Place) (c : Char) (ks : List Bracket) (r : Reading)
    → reads_at p c ks ≡ some r
    → scan_char c (scan_of (record { place = p; opened = ks })) ≡ scan_of r
unfolding scan_char
scan_char-reads_at outside_strings c ks r h = ground arith
scan_char-reads_at inside_string c ks r h = ground arith
scan_char-reads_at after_backslash c ks r h = ap scan_of (some-inj h)

scan_text-read_text :
    (s : String) (r r' : Reading) → read_text s r ≡ some r' → scan_text s (scan_of r) ≡ scan_of r'
unfolding scan_char
scan_text-read_text String.[] r r' h = ap scan_of (some-inj h)
scan_text-read_text (String.◌∷◌ c s) r r' h =
    let (m, first, later) = >>=-eq-some (read_char c r) (read_text s) h in
    ap (scan_text s) (scan_char-reads_at r.place c r.opened m first)
    ∙ scan_text-read_text s m r' later

read_text-concat :
    (s t : String) (r r' : Reading)
    → read_text s r ≡ some r'
    → read_text (concat s t) r ≡ read_text t r'
unfolding concat
read_text-concat String.[] t r r' h = ap (read_text t) (some-inj h)
read_text-concat (String.◌∷◌ c s) t r r' h =
    let (m, first, later) = >>=-eq-some (read_char c r) (read_text s) h in
    rw first (read_text-concat s t m r' later)

-- The closers close what they are made for, each bracket by one of its kind.
read_text-closers :
    (ks : List Bracket) → read_text (closers (map kind ks)) (outside_with ks) ≡ some fresh
read_text-closers [] = refl
read_text-closers (curly ∷ ks) = read_text-closers ks
read_text-closers (square ∷ ks) = read_text-closers ks

closed_outside :
    (p : Place) (ks : List Bracket)
    → p ≡ outside_strings
    → read_text (closers (map kind ks)) (record { place = p; opened = ks }) ≡ some fresh
closed_outside outside_strings ks h = read_text-closers ks
closed_outside inside_string ks h = absurd (cc (h))
closed_outside after_backslash ks h = absurd (cc (h))

scan_of_stack :
    (p : Place) (ks : List Bracket)
    → (scan_of (record { place = p; opened = ks })).stack ≡ map kind ks
scan_of_stack outside_strings ks = refl
scan_of_stack inside_string ks = refl
scan_of_stack after_backslash ks = refl

-- Within a string they are part of it, and the string stays open.
closers-inside :
    (ks : List Closer) (p : Place) (opened : List Bracket)
    → p ≢ outside_strings
    → read_text (closers ks) (record { place = p; opened = opened }) ≢ some fresh
closers-inside ks outside_strings opened h q = absurd (h refl)
closers-inside [] inside_string opened h q = absurd (cc (q))
closers-inside [] after_backslash opened h q = absurd (cc (q))
closers-inside (brace ∷ ks) inside_string opened h q = closers-inside ks inside_string opened h q
closers-inside (bracket ∷ ks) inside_string opened h q = closers-inside ks inside_string opened h q
closers-inside (brace ∷ ks) after_backslash opened h q =
    closers-inside ks inside_string opened (λ e. ground arith) q
closers-inside (bracket ∷ ks) after_backslash opened h q =
    closers-inside ks inside_string opened (λ e. ground arith) q

-- The repair of a text in which no bracket closes one of the other kind, or nothing: if the text does
-- not end within a string, then in the repaired text every bracket is closed by one of its kind, in
-- order. If it does, the repair does not help: the string stays open.
pub close_truncated_json_lem :
    (text : String) (r : Reading)
    → read_text text fresh ≡ some r
    → (r.place ≡ outside_strings → IsBalanced (close_truncated_json text))
      × (r.place ≢ outside_strings → ¬ IsBalanced (close_truncated_json text))
unfolding close_truncated_json
close_truncated_json_lem text r h =
    let scanned : scan_text text start ≡ scan_of r = scan_text-read_text text fresh r h in
    let appended = read_text-concat text (closers (scan_text text start).stack) fresh r h in
    let stack : (scan_text text start).stack ≡ map kind r.opened =
      ap (λ (x : TextScan). x.stack) scanned ∙ scan_of_stack r.place r.opened in
    (
      λ outside.
          appended
          ∙ ap (λ ks. read_text (closers ks) r) stack
          ∙ closed_outside r.place r.opened outside,
      λ within balanced.
          closers-inside (scan_text text start).stack r.place r.opened within
            (sym appended ∙ balanced),
    )

head-from_brace : (text tail : String) → from_brace text ≡ some tail → head tail ≡ "{"
unfolding from_brace
head-from_brace String.[] tail h = absurd (cc h)
head-from_brace (String.◌∷◌ c s) tail h = elim (Bool-cases (is b'{' c)) [
  | inl e ↦ ap head (
      sym (
        some-inj
          (subst (λ b. (if b then some (String.◌∷◌ "{" s) else from_brace s) ≡ some tail) e h)))
  | inr e ↦
      head-from_brace s tail
        (subst (λ b. (if b then some (String.◌∷◌ "{" s) else from_brace s) ≡ some tail) e h)
]

outer_span-unclosed : (tail : String) → to_brace 0 tail ≡ none → outer_span tail ≡ head tail
unfolding outer_span
outer_span-unclosed tail h = rw (h, outer_span) refl

try_parse-brace :
    {Json : Type 0} (loads : String → Option Json) (fenced : String → Option String) (empty : Json)
    → loads "{" ≡ none
    → loads "{}" ≡ some empty
    → try_parse loads fenced "{" ≡ some empty
unfolding try_parse
try_parse-brace loads fenced empty one both = rw (one, try_parse) both

module _ {Json : Type 0} (loads : String → Option Json) (fenced : String → Option String) where
  -- A truncated object is taken for the empty one. If the text has no code fence, its first "{" is
  -- nowhere closed, and "{" alone does not parse but "{}" does, then the answer is what "{}" parses
  -- to, whatever else the text holds.
  pub truncated_is_empty :
      (text tail : String) (empty : Json)
      → fenced text ≡ none
      → from_brace text ≡ some tail
      → to_brace 0 tail ≡ none
      → loads "{" ≡ none
      → loads "{}" ≡ some empty
      → extract_json loads fenced text ≡ some empty
  unfolding extract_json
  truncated_is_empty text tail empty no_fence found unclosed one both =
      rw (no_fence, found, outer_span-unclosed tail unclosed ∙ head-from_brace text tail found)
        (rw (try_parse-brace loads fenced empty one both, first_parsed) refl)
