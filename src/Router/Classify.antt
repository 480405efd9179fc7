-- ===== src/Router/Classify.antt =====
-- router.c: `determine_if_regex`, which looks for patterns that need no regular expression.
pub mod Literal
pub mod Parse
pub mod Sound
mod Tests
use carbon_c_relay.Prelude.{
  ℕ, ◌+◌, ◌<◌, Bool, true, false, not, ◌&&◌, ◌||◌, Option, none, some, List, [], ◌∷◌, ◌++◌,
  if◌then◌else◌, ◌==◌, ltb, leb, length,
}

-- the `matchtype` values that are chosen from
pub data MatchType : Type 0 where
  contains starts_with ends_with matches regex : MatchType

-- the cases of the switch, with the default's test
pub data Class : Type 0 where
  backslash meta dollar ordinary odd : Class

abbrev pub is_plain : ℕ → Bool
is_plain c =
    (c == b'_')
    || ((c == b'-')
        || ((leb b'0' c && leb c b'9')
            || ((leb b'a' c && leb c b'z') || (leb b'A' c && leb c b'Z'))))

unfoldable pub class_of : ℕ → Class
class_of c =
    if c == b'\\'
    then backslash
    else if (c == b'.') || ((c == b'^') || ((c == b'*') || (c == b'+')))
    then meta
    else if c == b'$'
    then dollar
    else if is_plain c
    then ordinary
    else odd

-- `r->matchtype`, `patbuf` up to `pb`, and `escape`
pub record Reading : Type 0 where
  pub type : MatchType
  pub patbuf : List ℕ
  pub escape : Bool

abbrev pub patbuf_size : ℕ
patbuf_size = 8192

abbrev pub is_regex : MatchType → Bool
is_regex regex = true
is_regex _ = false

-- a `$` at the end
abbrev pub with_end : MatchType → MatchType
with_end starts_with = matches
with_end _ = ends_with

abbrev pub is_end : List ℕ → Bool
is_end [] = true
is_end (c ∷ e) = false

abbrev pub keep : Reading → ℕ → Reading
keep r c = record r { patbuf = r.patbuf ++ (c ∷ []); escape = false }

-- The switch: the case and the character, what follows it, and `escape`.
unfoldable pub read_char : Class → ℕ → List ℕ → Bool → Reading → Reading
read_char backslash c e true r = keep r c
read_char backslash c e false r = record r { escape = true }
read_char meta c e true r = keep r c
read_char meta c e false r = record (keep r c) { type = regex }
read_char dollar c e true r = record r { type = regex; escape = false }
read_char dollar c e false r = record r {
  type = if is_end e then with_end r.type else regex;
  escape = false;
}
read_char ordinary c e true r = record r { type = regex; escape = false }
read_char ordinary c e false r = keep r c
read_char odd c e escape r = record r { type = regex; escape = false }

-- the end of a round
abbrev pub limit : Reading → Reading
limit r = if length r.patbuf == patbuf_size then record r { type = regex } else r

unfoldable pub read_pattern : List ℕ → Reading → Reading
unfolding read_char class_of
read_pattern [] r = r
read_pattern (c ∷ e) r =
    let r' = limit (read_char (class_of c) c e r.escape r) in
    let rest = read_pattern e r' in if is_regex r'.type then r' else rest

abbrev pub begin_with : MatchType → Reading
begin_with type = record { type = type; patbuf = []; escape = false }

-- the part in front of the tests
unfoldable pub read_all : List ℕ → Reading
read_all [] = begin_with contains
read_all (c ∷ e) =
    if c == b'^'
    then read_pattern e (begin_with starts_with)
    else read_pattern (c ∷ e) (begin_with contains)

-- What the rule goes by: a text, or an expression with `nmatch` groups.
pub data Choice : Type 0 where
  verbatim : MatchType → List ℕ → Choice
  compiled : ℕ → Choice

abbrev pub re_max_matches : ℕ
re_max_matches = 64

-- `regcomp` answers with `re_nsub`, or `none` for an error; `granted` says whether memory is had for
-- the expressions, and `again` whether the workers' own copies compile. `none` is a result other than 0.
unfoldable pub determine_if_regex : (List ℕ → Option ℕ) → Bool → Bool → List ℕ → Option Choice
determine_if_regex regcomp granted again pat =
    let r = read_all pat in
    if not (is_regex r.type)
    then some (verbatim r.type r.patbuf)
    else if granted
    then (elim (regcomp pat) [
      | none ↦ none
      | some nsub ↦
          (let nmatch = if ltb 0 nsub then nsub + 1 else 0 in
            if ltb re_max_matches nmatch
            then none
            else if again
            then some (compiled nmatch)
            else none)
    ])
    else none
