-- ===== src/Router/Rewrite/Literal.antt =====
-- `router_rewrite_metric` with a replacement that has no escapes: the match is replaced by it.
use mathlib.Core.Path.{ap₂}
use mathlib.Core.List.{append_assoc, append-nil}
use carbon_c_relay.Prelude.{
  ℕ, ◌+◌, ◌-◌, ◌≤◌, ◌<◌, ◌≡◌, refl, sym, ◌∙◌, ap, Bool, true, false, not, none, some, List, [], ◌∷◌,
  ◌++◌, ◌==◌, ◌&&◌, arith, length, take, drop, get_or, length-take, length-drop, lt→ltb, le→leb,
}
use carbon_c_relay.Router.{metric_bufsiz, RegMatch}
use carbon_c_relay.Router.Rewrite.{
  Rewriter, retain, append_rev, slice, rewrite_step, rewrite_loop, undo_last, finish, rewritten,
  rewrite_match, router_rewrite_metric,
}
use carbon_c_relay.Router.Rewrite.Bounds.{length-append_rev}

-- no backslash among the bytes
abbrev pub is_literal : List ℕ → Bool
is_literal [] = true
is_literal (c ∷ s) = not (c == 0x5c) && is_literal s

abbrev idle : List ℕ → Rewriter
idle out = record { out = out; escape = 0; ref = 0; rcase = retain }

rewrite_step-literal :
    (metric : List ℕ) (nmatch : ℕ) (pmatch : List RegMatch) (out : List ℕ) (c : ℕ)
    → (c == 0x5c) ≡ false
    → length out + 1 < metric_bufsiz
    → rewrite_step metric nmatch pmatch (idle out) c ≡ idle (c ∷ out)
unfolding rewrite_step
rewrite_step-literal metric nmatch pmatch out c h fits = ground arith

rewrite_loop-literal :
    (metric : List ℕ) (nmatch : ℕ) (pmatch : List RegMatch) (s out : List ℕ)
    → is_literal s ≡ true
    → length out + length s + 1 < metric_bufsiz
    → rewrite_loop metric nmatch pmatch (idle out) s ≡ idle (0 ∷ append_rev out s)
unfolding rewrite_loop
rewrite_loop-literal metric nmatch pmatch [] out h fits =
    rewrite_step-literal metric nmatch pmatch out 0 refl (omega arith)
rewrite_loop-literal metric nmatch pmatch (c ∷ s) out h fits =
    rw (rewrite_step-literal metric nmatch pmatch out c (ground arith) (omega arith))
      (rewrite_loop-literal metric nmatch pmatch s (c ∷ out) (ground arith) (omega arith))

append_rev-acc : (s out : List ℕ) → append_rev out s ≡ append_rev [] s ++ out
append_rev-acc [] out = refl
append_rev-acc (c ∷ s) out =
    append_rev-acc s (c ∷ out)
    ∙ sym (append_assoc (append_rev [] s) (c ∷ []) out)
    ∙ ap (λ l. l ++ out) (sym (append_rev-acc s (c ∷ [])))

-- what is pushed last stands last, once turned round
append_rev-append_rev : (s out : List ℕ) → append_rev [] (append_rev out s) ≡ append_rev [] out ++ s
append_rev-append_rev [] out = sym (append-nil (append_rev [] out))
append_rev-append_rev (c ∷ s) out =
    append_rev-append_rev s (c ∷ out)
    ∙ ap (λ l. l ++ s) (append_rev-acc out (c ∷ []))
    ∙ append_assoc (append_rev [] out) (c ∷ []) s

turn_round :
    (lead s sl : List ℕ)
    → append_rev [] (append_rev (append_rev (append_rev [] lead) s) sl) ≡ lead ++ (s ++ sl)
turn_round lead s sl =
    append_rev-append_rev sl (append_rev (append_rev [] lead) s)
    ∙ ap (λ l. l ++ sl) (append_rev-append_rev s (append_rev [] lead))
    ∙ ap (λ l. (l ++ s) ++ sl) (append_rev-append_rev lead [])
    ∙ append_assoc lead s sl

finish-some :
    (metric : List ℕ) (n eo : ℕ) (out : List ℕ)
    → eo ≤ length out + n
    → length out + n - eo < metric_bufsiz
    → length (append_rev out (slice metric eo n)) + length (drop n metric) < metric_bufsiz
    → finish metric n eo out
      ≡ some (
        append_rev [] (append_rev out (slice metric eo n)) ++ drop n metric,
        length (append_rev out (slice metric eo n)),
      )
unfolding finish
finish-some metric n eo out a b c =
    rw
      (
        le→leb eo (length out + n) a,
        lt→ltb (length out + n - eo) metric_bufsiz b,
        lt→ltb (length (append_rev out (slice metric eo n)) + length (drop n metric)) metric_bufsiz
            c,
      )
      refl

module _ (metric s : List ℕ) (n nmatch : ℕ) (pmatch : List RegMatch) (so eo : ℕ)
    (match_at : get_or pmatch 0 none ≡ some (so, eo)) (in_path : so ≤ eo) (eo_in : eo ≤ n)
    (n_in : n ≤ length metric) (no_escape : is_literal s ≡ true)
    (room : so + length s + (length metric - eo) + 1 < metric_bufsiz) where
  rewritten-literal :
      rewritten metric s nmatch pmatch so ≡ append_rev (append_rev [] (take so metric)) s
  unfolding rewritten
  rewritten-literal =
      ap (λ r. undo_last r.out)
        (rewrite_loop-literal metric nmatch pmatch s (append_rev [] (take so metric)) no_escape
          (omega (arith, length-append_rev [] (take so metric), length-take so metric)))

  length-parts :
      (length (append_rev (append_rev [] (take so metric)) s) ≡ so + length s)
      × (length (slice metric eo n) ≡ n - eo)
      × (length (drop n metric) ≡ length metric - n)
  length-parts = (
    omega (
      arith,
      length-append_rev (append_rev [] (take so metric)) s,
      length-append_rev [] (take so metric),
      length-take so metric,
    ),
    omega (arith, length-drop eo (take n metric), length-take n metric),
    length-drop n metric,
  )

  -- With a replacement free of backslashes, a match inside the path and room for the line, the
  -- rewritten line is the metric with the match replaced, and its first space is that of the metric,
  -- moved by as much as the path has grown or shrunk.
  pub router_rewrite_metric-literal :
      router_rewrite_metric metric n s nmatch pmatch
      ≡ some
          ((take so metric ++ (s ++ slice metric eo n)) ++ drop n metric, so + length s + (n - eo))
  unfolding router_rewrite_metric rewrite_match
  router_rewrite_metric-literal =
      rw (match_at, rewrite_match, lt→ltb so metric_bufsiz (omega arith), rewritten-literal)
        finish_lem
    where
      finish_lem :
          finish metric n eo (append_rev (append_rev [] (take so metric)) s)
          ≡ some (
            (take so metric ++ (s ++ slice metric eo n)) ++ drop n metric,
            so + length s + (n - eo),
          )
      finish_lem =
          finish-some metric n eo (append_rev (append_rev [] (take so metric)) s)
            (omega (arith, length-parts)) (omega (arith, length-parts))
            (omega (
              arith,
              length-parts,
              length-append_rev (append_rev (append_rev [] (take so metric)) s) (slice metric eo n),
            ))
          ∙ ap₂ (λ (l : List ℕ) (k : ℕ). some (l ++ drop n metric, k))
              (turn_round (take so metric) s (slice metric eo n))
              (omega (
                arith,
                length-parts,
                length-append_rev (append_rev (append_rev [] (take so metric)) s)
                    (slice metric eo n),
              ))
