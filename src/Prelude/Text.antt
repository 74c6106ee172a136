-- ===== src/Prelude/Text.antt =====
-- What the program uses of `str`: `lower` and `strip` on ASCII, `in`, and the part after a last dot.
use Prim.Native.Char.{Char, code}
use Prim.Native.String.{String}
use mathlib.Core.Path.{◌≡◌, refl}
use mathlib.Core.Bool.{Bool, true, false, ◌&&◌, ◌||◌}
use mathlib.Core.Option.{Option, none, some}
use mathlib.Core.List.{List, [], ◌∷◌}
use text.Mathlib.Text.{◌==◌}
use hmta_service.Prelude.Tests.{if◌then◌else◌, nat_eq, leb}

abbrev cases_of_letters : List (Char × Char)
cases_of_letters =
    ("A", "a")
    ∷ ("B", "b")
    ∷ ("C", "c")
    ∷ ("D", "d")
    ∷ ("E", "e")
    ∷ ("F", "f")
    ∷ ("G", "g")
    ∷ ("H", "h")
    ∷ ("I", "i")
    ∷ ("J", "j")
    ∷ ("K", "k")
    ∷ ("L", "l")
    ∷ ("M", "m")
    ∷ ("N", "n")
    ∷ ("O", "o")
    ∷ ("P", "p")
    ∷ ("Q", "q")
    ∷ ("R", "r")
    ∷ ("S", "s")
    ∷ ("T", "t")
    ∷ ("U", "u")
    ∷ ("V", "v")
    ∷ ("W", "w")
    ∷ ("X", "x")
    ∷ ("Y", "y")
    ∷ ("Z", "z")
    ∷ []

lower_by : List (Char × Char) → Char → Char
lower_by [] c = c
lower_by ((big, small) ∷ rest) c = if nat_eq (code big) (code c) then small else lower_by rest c

-- s.lower()
unfoldable pub lower : String → String
unfolding lower_by
lower String.[] = String.[]
lower (String.◌∷◌ c s) = String.◌∷◌ (lower_by cases_of_letters c) (lower s)

abbrev pub is_space : Char → Bool
is_space c =
    nat_eq (code c) 32 || (leb 9 (code c) && leb (code c) 13 || leb 28 (code c) && leb (code c) 31)

strip_left : String → String
strip_left String.[] = String.[]
strip_left (String.◌∷◌ c s) = if is_space c then strip_left s else String.◌∷◌ c s

keep_char : Char → String → String
keep_char c s = if is_space c && s == "" then "" else String.◌∷◌ c s

strip_right : String → String
unfolding keep_char
strip_right String.[] = String.[]
strip_right (String.◌∷◌ c s) = keep_char c (strip_right s)

-- s.strip()
unfoldable pub strip : String → String
unfolding strip_left strip_right
strip s = strip_left (strip_right s)

unfoldable pub is_prefix : String → String → Bool
is_prefix String.[] s = true
is_prefix (String.◌∷◌ c t) String.[] = false
is_prefix (String.◌∷◌ c t) (String.◌∷◌ d s) = nat_eq (code c) (code d) && is_prefix t s

-- t in s
unfoldable pub contains : String → String → Bool
unfolding is_prefix
contains t String.[] = is_prefix t ""
contains t (String.◌∷◌ c s) = is_prefix t (String.◌∷◌ c s) || contains t s

last_part : String → String → String
last_part part String.[] = part
last_part part (String.◌∷◌ c s) = last_part (if nat_eq (code c) b'.' then s else part) s

-- s.rsplit(".", 1)[-1]
unfoldable pub after_last_dot : String → String
unfolding last_part
after_last_dot s = last_part s s

-- s[len(t):], if s.startswith(t)
unfoldable pub after_prefix : String → String → Option String
after_prefix String.[] s = some s
after_prefix (String.◌∷◌ c t) String.[] = none
after_prefix (String.◌∷◌ c t) (String.◌∷◌ d s) =
    if nat_eq (code c) (code d) then after_prefix t s else none

-- t + s
unfoldable pub concat : String → String → String
concat String.[] s = s
concat (String.◌∷◌ c t) s = String.◌∷◌ c (concat t s)

-- The empty text is in every text.
pub contains-empty : (s : String) → contains "" s ≡ true
unfolding contains
contains-empty String.[] = refl
contains-empty (String.◌∷◌ c s) = refl

lower_motion : after_last_dot (lower "Navigation.Move_To") ≡ "move_to"
unfolding lower after_last_dot
lower_motion = refl

strip_both : strip "  a b " ≡ "a b"
unfolding strip
strip_both = refl

contains_inside : (contains "vig" "navigate" ≡ true) × (contains "gate2" "navigate" ≡ false)
unfolding contains
contains_inside = (refl, refl)
