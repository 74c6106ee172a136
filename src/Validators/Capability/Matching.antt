-- ===== src/Validators/Capability/Matching.antt =====
-- When an intent matches a capability: an account of the comparisons by which texts are how they are.
use Prim.Native.Char.{code}
use text.Mathlib.TextEquality.{Char-path}
use hmta_service.Prelude.{
  subst, Bool-cases, eq_iff, String, Bool, true, false, List, [], ◌∷◌, ◌≡◌, ◌⊎◌, ◌↔◌, inl, inr,
  refl, arith, ap, sym, ◌∙◌, Any, ◌||◌, ◌==◌,
}
use hmta_service.Prelude.Text.{lower, is_prefix, strip, contains, concat}
use hmta_service.Validators.Capability.{matches_any_capability, matches_capability, CapNames}

-- The text `t` stands somewhere in `s`.
abbrev pub Within : String → String → Type 0
Within t s = (a : String) × ((b : String) × (s ≡ concat a (concat t b)))

-- A name is matched if it is the intent, but for space around the name; or if the two are alike but
-- for case and space; or if one is a part of the other.
abbrev pub MatchesName : String → String → Type 0
MatchesName intent name =
    (intent ≡ strip name)
    ⊎ ((strip (lower intent) ≡ lower (strip name))
        ⊎ (Within (strip (lower intent)) (lower (strip name))
            ⊎ Within (lower (strip name)) (strip (lower intent))))

abbrev pub Matches : String → CapNames → Type 0
Matches intent cap = MatchesName intent cap.0 ⊎ MatchesName intent cap.1

is_prefix_iff : (t s : String) → (is_prefix t s ≡ true) ↔ ((b : String) × (s ≡ concat t b))
unfolding is_prefix concat
is_prefix_iff String.[] s = (λ h. (s, refl), λ h. refl)
is_prefix_iff (String.◌∷◌ c t) String.[] = (λ h. absurd (cc (h)), λ h. absurd (cc (h.1)))
is_prefix_iff (String.◌∷◌ c t) (String.◌∷◌ d s) =
    let later = is_prefix_iff t s in
    (
      λ h.
          let (b, q) = later.0 (ground (arith, h)) in
          let same : c ≡ d = Char-path c d (ground (arith, h)) in
          (b, ap (λ k. String.◌∷◌ k s) (sym same) ∙ ap (String.◌∷◌ c) q),
      λ h.
          let same : c ≡ d = cc (h.1) in
          let rest : s ≡ concat t h.0 = cc (h.1) in
          ground (arith, ap code same, later.1 (h.0, rest)),
    )

prefix-contains : (t s : String) → is_prefix t s ≡ true → contains t s ≡ true
unfolding contains
prefix-contains t String.[] h = h
prefix-contains t (String.◌∷◌ c s) h = rw h refl

Within-contains : (t b a s : String) → s ≡ concat a (concat t b) → contains t s ≡ true
unfolding contains concat
Within-contains t b String.[] s h = prefix-contains t s ((is_prefix_iff t s).1 (b, h))
Within-contains t b (String.◌∷◌ c a) String.[] h = absurd (cc (h))
Within-contains t b (String.◌∷◌ c a) (String.◌∷◌ d s) h =
    let later = Within-contains t b a s (cc (h)) in ground (arith, later)

contains-Within : (t s : String) → contains t s ≡ true → Within t s
unfolding contains concat
contains-Within t String.[] h = let (b, q) = (is_prefix_iff t "").0 h in ("", (b, q))
contains-Within t (String.◌∷◌ c s) h = elim (Bool-cases (is_prefix t (String.◌∷◌ c s))) [
  | inl e ↦ let (b, q) = (is_prefix_iff t (String.◌∷◌ c s)).0 e in ("", (b, q))
  | inr e ↦
      let (a, (b, q)) = contains-Within t s (rw e at h) in
      (String.◌∷◌ c a, (b, ap (String.◌∷◌ c) q))
]

contains_iff : (t s : String) → (contains t s ≡ true) ↔ Within t s
contains_iff t s = (contains-Within t s, λ h. Within-contains t h.1.0 h.0 s h.1.1)

or_iff :
    (a b : Bool) (P Q : Type 0) → ((a ≡ true) ↔ P) → ((b ≡ true) ↔ Q) → ((a || b) ≡ true) ↔ (P ⊎ Q)
or_iff true b P Q p q = (λ h. inl (p.0 refl), λ h. refl)
or_iff false b P Q p q =
    (λ h. inr (q.0 h), λ h. elim h [ inl x ↦ absurd (cc (p.1 x)) | inr y ↦ q.1 y ])

-- The comparisons that the code makes with one name.
abbrev name_test : String → String → Bool
name_test intent name =
    intent == strip name
    || (strip (lower intent) == lower (strip name)
        || (contains (strip (lower intent)) (lower (strip name))
            || contains (lower (strip name)) (strip (lower intent))))

name_test_iff : (intent name : String) → (name_test intent name ≡ true) ↔ MatchesName intent name
name_test_iff intent name = or_iff _ _ _ _ (eq_iff intent (strip name)) (
    or_iff _ _ _ _ (eq_iff (strip (lower intent)) (lower (strip name))) (
      or_iff _ _ _ _ (contains_iff (strip (lower intent)) (lower (strip name)))
        (contains_iff (lower (strip name)) (strip (lower intent)))))

-- The code makes them in another order.
matches_capability-tests :
    (intent : String) (cap : CapNames)
    → matches_capability intent cap ≡ (name_test intent cap.0 || name_test intent cap.1)
unfolding matches_capability
matches_capability-tests intent cap = ground arith

pub matches_any_capability_iff :
    (intent : String) (caps : List CapNames)
    → (matches_any_capability intent caps ≡ true) ↔ Any (Matches intent) caps
unfolding matches_any_capability
matches_any_capability_iff intent [] = (λ h. absurd (cc (h)), λ h. absurd h)
matches_any_capability_iff intent (c ∷ cs) =
    or_iff _ _ _ _
      (subst (λ b. (b ≡ true) ↔ Matches intent c) (sym (matches_capability-tests intent c))
        (or_iff _ _ _ _ (name_test_iff intent c.0) (name_test_iff intent c.1)))
      (matches_any_capability_iff intent cs)
