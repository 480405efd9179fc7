-- ===== src/Router/Classify/Tests.antt =====
-- Patterns that are looked through, and each theorem at an input.
use carbon_c_relay.Prelude.{ℕ, ◌≡◌, refl, true, Option, none, some, List, [], ◌∷◌, arith}
use carbon_c_relay.Router.Classify.{
  contains, starts_with, matches, verbatim, compiled, class_of, read_all, read_pattern,
  determine_if_regex,
}
use carbon_c_relay.Router.Classify.Literal.{IsText, determine_if_regex-expression}
use carbon_c_relay.Router.Classify.Sound.{Unescaped, determine_if_regex-Unescaped}

-- every expression has one group
abbrev regcomp : List ℕ → Option ℕ
regcomp pat = some 1

-- A dot that is not escaped makes an expression.
run_dot : determine_if_regex regcomp true true (b'a' ∷ b'.' ∷ b'b' ∷ []) ≡ some (compiled 2)
unfolding determine_if_regex read_all read_pattern
run_dot = refl

-- A backslash that escapes nothing, which is no regular expression, is taken for the end of a text.
run_stray :
    determine_if_regex (λ pat. none) true true (b'a' ∷ b'\\' ∷ [])
    ≡ some (verbatim contains (b'a' ∷ []))
unfolding determine_if_regex read_all read_pattern
run_stray = refl

determine_if_regex-expression_example :
    determine_if_regex regcomp true true (b'^' ∷ b'a' ∷ b'\\' ∷ b'.' ∷ b'b' ∷ b'$' ∷ [])
    ≡ some (verbatim matches (b'a' ∷ b'.' ∷ b'b' ∷ []))
unfolding class_of
determine_if_regex-expression_example =
    determine_if_regex-expression regcomp true true matches (b'a' ∷ b'.' ∷ b'b' ∷ []) refl
      (refl, (refl, (refl, tt))) (omega arith)

determine_if_regex-Unescaped_example :
    IsText (b'a' ∷ []) × Unescaped starts_with (b'a' ∷ []) (b'^' ∷ b'a' ∷ [])
unfolding determine_if_regex read_all read_pattern
determine_if_regex-Unescaped_example =
    determine_if_regex-Unescaped regcomp true true (b'^' ∷ b'a' ∷ []) starts_with (b'a' ∷ []) refl
