-- ===== src/Router/Classify/Sound.antt =====
-- A pattern that is taken for a text is the expression for that text.
use mathlib.Core.Path.{subst}
use mathlib.Core.List.{append-nil}
use carbon_c_relay.Prelude.{
  ℕ, ◌+◌, ◌≡◌, refl, sym, ◌∙◌, ap, Bool, true, false, Option, none, some, List, [], ◌∷◌, ◌++◌,
  if◌then◌else◌, ◌==◌, Bool-cases, inl, inr, ◌⊎◌, ==_iff, ltb, Option-cases,
}
use carbon_c_relay.Router.Classify.{
  MatchType, contains, starts_with, regex, Reading, is_regex, read_pattern, begin_with, read_all,
  Choice, verbatim, compiled, determine_if_regex, re_max_matches,
}
use carbon_c_relay.Router.Classify.Literal.{escaped, IsText, expression}
use carbon_c_relay.Router.Classify.Parse.{
  Ends, bare, anchored, stray, ReadBack, nothing_left, read_back,
}

abbrev pub Unescaped : MatchType → List ℕ → List ℕ → Type 0
Unescaped type s pat = (pat ≡ expression type s) ⊎ (pat ≡ expression type s ++ (b'\\' ∷ []))

Ends-contains :
    (t : List ℕ) {ending : List ℕ} {type : MatchType}
    → Ends contains ending type
    → Unescaped type t (escaped t ++ ending)
Ends-contains t bare = inl (append-nil (escaped t))
Ends-contains t anchored = inl refl
Ends-contains t stray = inr refl

Ends-starts_with :
    (t : List ℕ) {ending : List ℕ} {type : MatchType}
    → Ends starts_with ending type
    → Unescaped type t (b'^' ∷ (escaped t ++ ending))
Ends-starts_with t bare = inl (ap (λ x. b'^' ∷ x) (append-nil (escaped t)))
Ends-starts_with t anchored = inl refl
Ends-starts_with t stray = inr refl

-- a pattern and what was read of it
abbrev Sound : List ℕ → Reading → Type 0
Sound pat r = IsText r.patbuf × Unescaped r.type r.patbuf pat

read_all-none : read_all [] ≡ begin_with contains
unfolding read_all
read_all-none = refl

read_all-anchored :
    (c : ℕ) (e : List ℕ)
    → (c == b'^') ≡ true
    → read_all (c ∷ e) ≡ read_pattern e (begin_with starts_with)
unfolding read_all
read_all-anchored c e h = rw (read_all, h) refl

read_all-bare :
    (c : ℕ) (e : List ℕ)
    → (c == b'^') ≡ false
    → read_all (c ∷ e) ≡ read_pattern (c ∷ e) (begin_with contains)
unfolding read_all
read_all-bare c e h = rw (read_all, h) refl

from_anchor : (e : List ℕ) (r : Reading) → ReadBack starts_with [] false e r → Sound (b'^' ∷ e) r
from_anchor e r b = rw (b.gathered, b.parsed) (b.is_text, Ends-starts_with b.text b.ends)

from_front : (e : List ℕ) (r : Reading) → ReadBack contains [] false e r → Sound e r
from_front e r b = rw (b.gathered, b.parsed) (b.is_text, Ends-contains b.text b.ends)

read_all-Sound : (pat : List ℕ) → is_regex (read_all pat).type ≡ false → Sound pat (read_all pat)
read_all-Sound [] f = from_front [] (read_all []) nothing
  where
    nothing : ReadBack contains [] false [] (read_all [])
    nothing =
        subst (ReadBack contains [] false []) (sym read_all-none) (nothing_left contains [] false)
read_all-Sound (c ∷ e) f = elim (Bool-cases (c == b'^')) [
  | inl hat ↦ anchored_pat (read_all-anchored c e hat) ((==_iff c b'^').0 hat)
  | inr other ↦ bare_pat (read_all-bare c e other)
]
  where
    anchored_pat :
        read_all (c ∷ e) ≡ read_pattern e (begin_with starts_with)
        → c ≡ b'^'
        → Sound (c ∷ e) (read_all (c ∷ e))
    anchored_pat h hat =
        subst (λ l. Sound l (read_all (c ∷ e))) (ap (λ x. x ∷ e) (sym hat))
          (subst (Sound (b'^' ∷ e)) (sym h) (
            from_anchor e _
              (read_back starts_with e [] false (ap (λ r. is_regex r.type) (sym h) ∙ f))))

    bare_pat :
        read_all (c ∷ e) ≡ read_pattern (c ∷ e) (begin_with contains)
        → Sound (c ∷ e) (read_all (c ∷ e))
    bare_pat h = subst (Sound (c ∷ e)) (sym h) (
        from_front (c ∷ e) _
          (read_back contains (c ∷ e) [] false (ap (λ r. is_regex r.type) (sym h) ∙ f)))

abbrev is_compiled : Option Choice → Bool
is_compiled none = true
is_compiled (some (verbatim type s)) = false
is_compiled (some (compiled n)) = true

abbrev text_of : Option Choice → List ℕ
text_of (some (verbatim type s)) = s
text_of _ = []

abbrev type_of : Option Choice → MatchType
type_of (some (verbatim type s)) = type
type_of _ = regex

no_literal :
    (regcomp : List ℕ → Option ℕ) (granted again : Bool) (pat : List ℕ)
    → is_regex (read_all pat).type ≡ true
    → is_compiled (determine_if_regex regcomp granted again pat) ≡ true
unfolding determine_if_regex
no_literal regcomp false again pat h = rw (determine_if_regex, h) refl
no_literal regcomp true again pat h = elim (Option-cases (regcomp pat)) [
  | inl e ↦ rw (determine_if_regex, h, e) refl
  | inr (nsub, e) ↦
      rw (determine_if_regex, h, e)
        (elim (Bool-cases (ltb re_max_matches (if ltb 0 nsub then nsub + 1 else 0))) [
          | inl many ↦ rw many refl
          | inr few ↦ rw few (by_again again nsub)
        ])
]
  where
    by_again :
        (b : Bool) (nsub : ℕ)
        → is_compiled (if b then some (compiled (if ltb 0 nsub then nsub + 1 else 0)) else none)
          ≡ true
    by_again true nsub = refl
    by_again false nsub = refl

-- If a pattern is taken for a text, then that text has only letters, digits, `_`, `-` and the special
-- characters, and the pattern is the expression that escapes it, with the anchors of the match type; or
-- it is that expression with a stray backslash behind it.
pub determine_if_regex-Unescaped :
    (regcomp : List ℕ → Option ℕ) (granted again : Bool) (pat : List ℕ) (type : MatchType)
    (s : List ℕ)
    → determine_if_regex regcomp granted again pat ≡ some (verbatim type s)
    → IsText s × Unescaped type s pat
unfolding determine_if_regex
determine_if_regex-Unescaped regcomp granted again pat type s h =
    elim (Bool-cases (is_regex (read_all pat).type)) [
      | inr text ↦ found text
      | inl expr ↦ cc (no_literal regcomp granted again pat expr, ap is_compiled h)
    ]
  where
    found : is_regex (read_all pat).type ≡ false → IsText s × Unescaped type s pat
    found text =
        let r = read_all pat in
        let e : some (verbatim r.type r.patbuf) ≡ some (verbatim type s) = rw text refl ∙ h in
        rw (← ap text_of e, ← ap type_of e) (read_all-Sound pat text)
