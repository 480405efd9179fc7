-- ===== src/Router/Classify/Literal.antt =====
-- Which patterns are texts: those in which every special character is escaped.
use mathlib.Core.List.{append_assoc, append-nil}
use carbon_c_relay.Prelude.{
  ℕ, suc, ◌+◌, ◌<◌, ◌≡◌, refl, sym, ◌∙◌, ap, Bool, true, false, Option, some, List, [], ◌∷◌, ◌++◌,
  ◌==◌, length, arith, Bool-cases, inl, inr, ◌⊎◌, ==_iff, length-append,
}
use carbon_c_relay.Router.Classify.{
  MatchType, contains, starts_with, ends_with, matches, regex, Class, backslash, meta, dollar,
  ordinary, odd, class_of, Reading, patbuf_size, is_regex, with_end, keep, read_char, limit,
  read_pattern, begin_with, read_all, verbatim, determine_if_regex,
}

-- a character in an expression, escaped if it is special
abbrev pub escaped_as : Class → ℕ → List ℕ
escaped_as backslash c = b'\\' ∷ c ∷ []
escaped_as meta c = b'\\' ∷ c ∷ []
escaped_as _ c = c ∷ []

abbrev pub escaped : List ℕ → List ℕ
escaped [] = []
escaped (c ∷ s) = escaped_as (class_of c) c ++ escaped s

abbrev pub is_literal : Class → Bool
is_literal dollar = false
is_literal odd = false
is_literal _ = true

-- texts of letters, digits, `_`, `-` and the special characters `\`, `.`, `^`, `*` and `+`
abbrev pub IsText : List ℕ → Type 0
IsText [] = Unit
IsText (c ∷ s) = (is_literal (class_of c) ≡ true) × IsText s

-- The expression for a text, with the anchors of a match type.
abbrev pub expression : MatchType → List ℕ → List ℕ
expression contains s = escaped s
expression starts_with s = b'^' ∷ escaped s
expression ends_with s = escaped s ++ (b'$' ∷ [])
expression matches s = b'^' ∷ (escaped s ++ (b'$' ∷ []))
expression regex s = []

no_limit :
    (buf : List ℕ) (type : MatchType) (c : ℕ) (n : ℕ)
    → length buf + suc n < patbuf_size
    → limit (record { type = type; patbuf = buf ++ (c ∷ []); escape = false })
      ≡ record { type = type; patbuf = buf ++ (c ∷ []); escape = false }
no_limit buf type c n h =
    let few : (length (buf ++ (c ∷ [])) == patbuf_size) ≡ false =
      ground (arith, length-append buf (c ∷ [])) in
    rw few refl

-- A round that leaves a match type other than `regex`.
next_round :
    (c : ℕ) (e : List ℕ) (r r' : Reading)
    → limit (read_char (class_of c) c e r.escape r) ≡ r'
    → is_regex r'.type ≡ false
    → read_pattern (c ∷ e) r ≡ read_pattern e r'
unfolding read_pattern
next_round c e r r' h f = rw (read_pattern, h, f) refl

abbrev pub at : MatchType → List ℕ → Bool → Reading
at type buf escape = record { type = type; patbuf = buf; escape = escape }

few_bytes :
    (buf : List ℕ) (n : ℕ) → length buf + n < patbuf_size → (length buf == patbuf_size) ≡ false
few_bytes buf n h = ground arith

opening :
    (type : MatchType) (buf e : List ℕ) (n : ℕ)
    → is_regex type ≡ false
    → length buf + n < patbuf_size
    → read_pattern (b'\\' ∷ e) (at type buf false) ≡ read_pattern e (at type buf true)
unfolding class_of read_char
opening type buf e n f h =
    next_round b'\\' e (at type buf false) (at type buf true) (rw (few_bytes buf n h) refl) f

-- a character that is kept
kept :
    (type : MatchType) (buf e : List ℕ) (c n : ℕ) (escape : Bool) (k : Class)
    → class_of c ≡ k
    → ((r : Reading) → read_char k c e escape r ≡ keep r c)
    → is_regex type ≡ false
    → length buf + suc n < patbuf_size
    → read_pattern (c ∷ e) (at type buf escape) ≡ read_pattern e (at type (buf ++ (c ∷ [])) false)
kept type buf e c n escape k ck kp f h =
    next_round c e (at type buf escape) (at type (buf ++ (c ∷ [])) false)
      (rw (ck, kp) (no_limit buf type c n h)) f

read_kept :
    (type : MatchType) (c : ℕ) (s buf e : List ℕ) (k : Class)
    → is_regex type ≡ false
    → length buf + suc (length s) < patbuf_size
    → read_pattern (escaped s ++ e) (at type (buf ++ (c ∷ [])) false)
      ≡ read_pattern e (at type (buf ++ (c ∷ s)) false)
    → class_of c ≡ k
    → is_literal k ≡ true
    → read_pattern (escaped_as k c ++ escaped s ++ e) (at type buf false)
      ≡ read_pattern e (at type (buf ++ (c ∷ s)) false)
unfolding read_char
read_kept type c s buf e backslash f h rest ck l =
    opening type buf (c ∷ (escaped s ++ e)) (suc (length s)) f h
    ∙ kept type buf (escaped s ++ e) c (length s) true backslash ck (λ r. refl) f h
    ∙ rest
read_kept type c s buf e meta f h rest ck l =
    opening type buf (c ∷ (escaped s ++ e)) (suc (length s)) f h
    ∙ kept type buf (escaped s ++ e) c (length s) true meta ck (λ r. refl) f h
    ∙ rest
read_kept type c s buf e ordinary f h rest ck l =
    kept type buf (escaped s ++ e) c (length s) false ordinary ck (λ r. refl) f h ∙ rest
read_kept type c s buf e dollar f h rest ck l = cc
read_kept type c s buf e odd f h rest ck l = cc

-- The escaped text is read back.
read_text :
    (type : MatchType) (s buf e : List ℕ)
    → is_regex type ≡ false
    → IsText s
    → length buf + length s < patbuf_size
    → read_pattern (escaped s ++ e) (at type buf false) ≡ read_pattern e (at type (buf ++ s) false)
read_text type [] buf e f t h = rw (append-nil buf) refl
read_text type (c ∷ s) buf e f t h =
    read_kept type c s buf e (class_of c) f h
      (read_text type s (buf ++ (c ∷ [])) e f t.1 (omega (arith, h, length-append buf (c ∷ [])))
        ∙ ap (λ l. read_pattern e (at type l false)) (append_assoc buf (c ∷ []) s))
      refl t.0

read_whole :
    (type : MatchType) (s : List ℕ)
    → is_regex type ≡ false
    → IsText s
    → length s < patbuf_size
    → read_pattern (escaped s) (begin_with type) ≡ at type s false
unfolding read_pattern
read_whole type s f t h =
    ap (λ l. read_pattern l (begin_with type)) (sym (append-nil (escaped s)))
    ∙ read_text type s [] [] f t (omega (arith, h))

is_regex-with_end : (type : MatchType) → is_regex (with_end type) ≡ false
is_regex-with_end contains = refl
is_regex-with_end starts_with = refl
is_regex-with_end ends_with = refl
is_regex-with_end matches = refl
is_regex-with_end regex = refl

read_closed :
    (type : MatchType) (s : List ℕ)
    → is_regex type ≡ false
    → IsText s
    → length s < patbuf_size
    → read_pattern (escaped s ++ (b'$' ∷ [])) (begin_with type) ≡ at (with_end type) s false
unfolding read_pattern read_char class_of
read_closed type s f t h =
    read_text type s [] (b'$' ∷ []) f t (omega (arith, h))
    ∙ next_round b'$' [] (at type s false) (at (with_end type) s false)
        (rw (few_bytes s 0 (omega arith)) refl) (is_regex-with_end type)

caret : (c : ℕ) → class_of c ≡ ordinary → (c == b'^') ≡ false
unfolding class_of
caret c ck = elim (Bool-cases (c == b'^')) [
  | inr other ↦ other
  | inl same ↦ cc (ap class_of ((==_iff c b'^').0 same))
]

-- no anchor in front
not_caret :
    (c : ℕ) (k : Class) (e : List ℕ)
    → class_of c ≡ k
    → is_literal k ≡ true
    → read_all (escaped_as k c ++ e) ≡ read_pattern (escaped_as k c ++ e) (begin_with contains)
unfolding read_all
not_caret c backslash e ck l = refl
not_caret c meta e ck l = refl
not_caret c ordinary e ck l = rw (read_all, caret c ck) refl
not_caret c dollar e ck l = cc
not_caret c odd e ck l = cc

read_front :
    (s e : List ℕ)
    → IsText s
    → (e ≡ []) ⊎ (e ≡ b'$' ∷ [])
    → read_all (escaped s ++ e) ≡ read_pattern (escaped s ++ e) (begin_with contains)
unfolding read_all read_pattern
read_front [] e t (inl h) = rw h refl
read_front [] e t (inr h) = rw h refl
read_front (c ∷ s) e t h =
    ap read_all (append_assoc (escaped_as (class_of c) c) (escaped s) e)
    ∙ not_caret c (class_of c) (escaped s ++ e) refl t.0
    ∙ ap (λ l. read_pattern l (begin_with contains))
        (sym (append_assoc (escaped_as (class_of c) c) (escaped s) e))

read_expression :
    (type : MatchType) (s : List ℕ)
    → is_regex type ≡ false
    → IsText s
    → length s < patbuf_size
    → read_all (expression type s) ≡ at type s false
unfolding read_all
read_expression contains s f t h =
    ap read_all (sym (append-nil (escaped s)))
    ∙ read_front s [] t (inl refl)
    ∙ ap (λ l. read_pattern l (begin_with contains)) (append-nil (escaped s))
    ∙ read_whole contains s refl t h
read_expression starts_with s f t h = read_whole starts_with s refl t h
read_expression ends_with s f t h =
    read_front s (b'$' ∷ []) t (inr refl) ∙ read_closed contains s refl t h
read_expression matches s f t h = read_closed starts_with s refl t h
read_expression regex s f t h = cc

-- The expression that escapes a text of fewer than 8192 characters, and anchors it or not, is read back
-- as that text and the match type of its anchors, whatever the regular expressions' library does.
pub determine_if_regex-expression :
    (regcomp : List ℕ → Option ℕ) (granted again : Bool) (type : MatchType) (s : List ℕ)
    → is_regex type ≡ false
    → IsText s
    → length s < patbuf_size
    → determine_if_regex regcomp granted again (expression type s) ≡ some (verbatim type s)
unfolding determine_if_regex
determine_if_regex-expression regcomp granted again type s f t h =
    rw (determine_if_regex, read_expression type s f t h, f) refl
