-- ===== src/Router/Rewrite/Bounds.antt =====
-- `router_rewrite_metric` stays inside its buffer, and leaves the data part of the line alone.
use carbon_c_relay.Prelude.{
  ℕ, zero, suc, ◌+◌, ◌-◌, ◌≤◌, ◌<◌, ◌≡◌, refl, ◌∙◌, Option, none, some, List, [], ◌∷◌, ◌++◌, map,
  ltb, leb, ◌&&◌, arith, length, length-append, length-take, take, drop, Bool-cases, Option-cases,
  inl, inr, get_or,
}
use carbon_c_relay.Router.{metric_bufsiz, RegMatch}
use carbon_c_relay.Router.Rewrite.{
  Rewriter, retain, append_rev, write_if_fits, slice, matched, insert_ref, literal, rewrite_step,
  rewrite_loop, finish, rewritten, rewrite_match, router_rewrite_metric, change_case,
}

pub length-append_rev : (out s : List ℕ) → length (append_rev out s) ≡ length out + length s
length-append_rev out [] = omega arith
length-append_rev out (c ∷ s) = omega (arith, length-append_rev (c ∷ out) s)

length-write_if_fits :
    (out s : List ℕ) → length out < metric_bufsiz → length (write_if_fits out s) < metric_bufsiz
length-write_if_fits out s h = ground (arith, length-append_rev out s)

abbrev Fits : Rewriter → Type 0
Fits r = length r.out < metric_bufsiz

insert_ref-Fits :
    (metric : List ℕ) (nmatch : ℕ) (pmatch : List RegMatch) (r : Rewriter)
    → Fits r
    → Fits (insert_ref metric nmatch pmatch r)
unfolding insert_ref
insert_ref-Fits metric nmatch pmatch r h =
    elim (Option-cases (matched metric nmatch pmatch r.ref)) [
      | inl unset ↦ rw unset (ground arith)
      | inr (s, found) ↦
          rw found (ground (arith, length-write_if_fits r.out (map (change_case r.rcase) s)))
    ]

literal-Fits : (r : Rewriter) (c : ℕ) → Fits r → Fits (literal r c)
unfolding literal
literal-Fits r c h = ground arith

rewrite_step-Fits :
    (metric : List ℕ) (nmatch : ℕ) (pmatch : List RegMatch) (r : Rewriter) (c : ℕ)
    → Fits r
    → Fits (rewrite_step metric nmatch pmatch r c)
unfolding rewrite_step
rewrite_step-Fits metric nmatch pmatch r c h = ground (
  arith,
  literal-Fits (insert_ref metric nmatch pmatch r) c (insert_ref-Fits metric nmatch pmatch r h),
)

rewrite_loop-Fits :
    (metric : List ℕ) (nmatch : ℕ) (pmatch : List RegMatch) (s : List ℕ) (r : Rewriter)
    → Fits r
    → Fits (rewrite_loop metric nmatch pmatch r s)
unfolding rewrite_loop
rewrite_loop-Fits metric nmatch pmatch [] r h = rewrite_step-Fits metric nmatch pmatch r 0 h
rewrite_loop-Fits metric nmatch pmatch (c ∷ s) r h =
    rewrite_loop-Fits metric nmatch pmatch s (rewrite_step metric nmatch pmatch r c)
      (rewrite_step-Fits metric nmatch pmatch r c h)

drop-append_rev : (out data' : List ℕ) (n : ℕ) → length out ≡ n → drop n (out ++ data') ≡ data'
drop-append_rev [] data' zero h = refl
drop-append_rev [] data' (suc n) h = absurd (omega arith)
drop-append_rev (c ∷ out) data' zero h = absurd (omega arith)
drop-append_rev (c ∷ out) data' (suc n) h = drop-append_rev out data' n (omega arith)

-- A rewritten line: it fits the buffer with its NUL, its first space lies inside, and the data part
-- is that of the metric.
pub record Rewritten (metric : List ℕ) (firstspace : ℕ) (line : List ℕ × ℕ) : Type 0 where
  pub fits : length line.0 + 1 ≤ metric_bufsiz
  pub inside : line.1 ≤ length line.0
  pub same_data : drop line.1 line.0 ≡ drop firstspace metric

abbrev pub IsRewritten : List ℕ → ℕ → Option (List ℕ × ℕ) → Type 0
IsRewritten metric firstspace none = Unit
IsRewritten metric firstspace (some line) = Rewritten metric firstspace line

finish-Rewritten :
    (metric : List ℕ) (n eo : ℕ) (out : List ℕ) → IsRewritten metric n (finish metric n eo out)
unfolding finish
finish-Rewritten metric n eo out =
    elim (Bool-cases (leb eo (length out + n) && ltb (length out + n - eo) metric_bufsiz)) [
      | inr no_room ↦ rw no_room tt
      | inl room ↦
          rw room (elim (Bool-cases (ltb (length out' + length (drop n metric)) metric_bufsiz)) [
            | inr no_room ↦ rw no_room tt
            | inl fits ↦ rw fits (record {
              fits = ground (arith, total);
              inside = ground (arith, total);
              same_data =
                  drop-append_rev (append_rev [] out') (drop n metric) (length out')
                    (length-append_rev [] out' ∙ omega arith);
            })
          ])
    ]
  where
    out' : List ℕ
    out' = append_rev out (slice metric eo n)

    total : length (append_rev [] out' ++ drop n metric) ≡ length out' + length (drop n metric)
    total =
        omega (arith, length-append (append_rev [] out') (drop n metric), length-append_rev [] out')

-- A rewritten line fits the buffer of METRIC_BUFSIZ bytes together with its NUL, its first space lies
-- inside it, and behind that stands the data part of the metric, for any replacement and any match
-- groups.
pub router_rewrite_metric-Rewritten :
    (metric : List ℕ) (firstspace : ℕ) (replacement : List ℕ) (nmatch : ℕ) (pmatch : List RegMatch)
    → IsRewritten metric firstspace
        (router_rewrite_metric metric firstspace replacement nmatch pmatch)
unfolding router_rewrite_metric
router_rewrite_metric-Rewritten metric n replacement nmatch pmatch = by_match (get_or pmatch 0 none)
  where
    by_match :
        (m : RegMatch) → IsRewritten metric n (rewrite_match metric n replacement nmatch pmatch m)
    by_match none = tt
    by_match (some (so, eo)) = elim (Bool-cases (ltb so metric_bufsiz)) [
      | inr long ↦ rw long tt
      | inl short ↦
          rw short (finish-Rewritten metric n eo (rewritten metric replacement nmatch pmatch so))
    ]

length-take_le : (n : ℕ) (s : List ℕ) → length (take n s) ≤ n
length-take_le n s = omega (arith, length-take n s)

-- Before the part behind the match is copied, the bytes written never fill the buffer, whatever the
-- replacement and the match groups are: no write of the loop goes past its end.
pub rewrite_loop-fits :
    (metric replacement : List ℕ) (nmatch so : ℕ) (pmatch : List RegMatch)
    → so < metric_bufsiz
    → length
        (rewrite_loop metric nmatch pmatch
          (record { out = append_rev [] (take so metric); escape = 0; ref = 0; rcase = retain })
          replacement).out
      < metric_bufsiz
rewrite_loop-fits metric replacement nmatch so pmatch h =
    rewrite_loop-Fits metric nmatch pmatch replacement
      (record { out = append_rev [] (take so metric); escape = 0; ref = 0; rcase = retain })
      (omega (arith, length-append_rev [] (take so metric), length-take_le so metric))
