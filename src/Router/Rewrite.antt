-- ===== src/Router/Rewrite.antt =====
-- router.c: `router_rewrite_metric`.
pub mod Bounds
pub mod Literal
use carbon_c_relay.Prelude.{
  ℕ, ◌+◌, ◌-◌, ◌*◌, Bool, true, false, not, ◌&&◌, Option, none, some, List, [], ◌∷◌, ◌++◌, map,
  if◌then◌else◌, ◌==◌, ltb, leb, length, take, drop, get_elem?, get_or,
}
use carbon_c_relay.Router.{metric_bufsiz, RegMatch}

-- `enum rewrite_case`
pub data RewriteCase : Type 0 where
  retain lower upper retain_dot lower_dot upper_dot : RewriteCase

-- `tolower` and `toupper` in the C locale
unfoldable pub tolower : ℕ → ℕ
tolower c = if leb b'A' c && leb c b'Z' then c + 32 else c

unfoldable pub toupper : ℕ → ℕ
toupper c = if leb b'a' c && leb c b'z' then c - 32 else c

abbrev pub undot : (ℕ → ℕ) → ℕ → ℕ
undot f c = if c == b'.' then b'_' else f c

unfoldable pub change_case : RewriteCase → ℕ → ℕ
unfolding tolower toupper
change_case retain c = c
change_case lower c = tolower c
change_case upper c = toupper c
change_case retain_dot c = undot (λ d. d) c
change_case lower_dot c = undot tolower c
change_case upper_dot c = undot toupper c

-- The variables of the loop over the replacement: the bytes written, last first, their number, and
-- `escape`, `ref` and `rcase`.
pub record Rewriter : Type 0 where
  pub out : List ℕ
  pub escape : ℕ
  pub ref : ℕ
  pub rcase : RewriteCase

abbrev pub is_retain : RewriteCase → Bool
is_retain retain = true
is_retain _ = false

abbrev pub with_dot : RewriteCase → RewriteCase
with_dot lower = lower_dot
with_dot upper = upper_dot
with_dot _ = retain_dot

-- bytes written behind those that stand there, last first
abbrev pub append_rev : List ℕ → List ℕ → List ℕ
append_rev out [] = out
append_rev out (c ∷ s) = append_rev (c ∷ out) s

-- `if (s - *newmetric + t - q < sizeof(*newmetric)) while (q < t) *s++ = …`
abbrev pub write_if_fits : List ℕ → List ℕ → List ℕ
write_if_fits out s = if ltb (length out + length s) metric_bufsiz then append_rev out s else out

-- the bytes from `so` to `eo`
abbrev pub slice : List ℕ → ℕ → ℕ → List ℕ
slice s so eo = drop so (take eo s)

-- The match group that a reference names; it is looked for in all of `pmatch`.
unfoldable pub matched : List ℕ → ℕ → List RegMatch → ℕ → Option (List ℕ)
matched metric nmatch pmatch ref =
    if ltb 0 ref && leb ref nmatch
    then (elim (get_elem? pmatch ref) [
      | none ↦ none
      | some m ↦ elim m [ none ↦ none | some (so, eo) ↦ some (slice metric so eo) ]
    ])
    else none

-- The end of a reference: its match group is inserted, if there is one and it fits.
unfoldable pub insert_ref : List ℕ → ℕ → List RegMatch → Rewriter → Rewriter
unfolding matched change_case
insert_ref metric nmatch pmatch r =
    if r.escape == 0 then r else (elim (matched metric nmatch pmatch r.ref) [
      | none ↦ record r { ref = 0 }
      | some s ↦ record r { out = write_if_fits r.out (map (change_case r.rcase) s); ref = 0 }
    ])

-- `if (*p != '\\') { escape = 0; rcase = RETAIN; … *s++ = *p; }`
unfoldable pub literal : Rewriter → ℕ → Rewriter
literal r c = if c == 0x5c then r else record r {
  out = if ltb (length r.out + 1) metric_bufsiz then c ∷ r.out else r.out;
  escape = 0;
  rcase = retain;
}

-- The body of the loop over the replacement, for one byte of it.
unfoldable pub rewrite_step : List ℕ → ℕ → List RegMatch → Rewriter → ℕ → Rewriter
unfolding insert_ref literal
rewrite_step metric nmatch pmatch r c =
    if (c == 0x5c) && (r.escape == 0)
    then record r { escape = 1; rcase = retain }
    else if (r.escape == 1) && (is_retain r.rcase && (c == b'_'))
    then record r { rcase = lower }
    else if (r.escape == 1) && (is_retain r.rcase && (c == b'^'))
    then record r { rcase = upper }
    else if (r.escape == 1) && (c == b'.')
    then record r { rcase = with_dot r.rcase }
    else if not (r.escape == 0) && (leb b'0' c && leb c b'9')
    then record r { escape = 2; ref = r.ref * 10 + (c - b'0') }
    else literal (insert_ref metric nmatch pmatch r) c

-- the loop, which ends with the terminating NUL
unfoldable pub rewrite_loop : List ℕ → ℕ → List RegMatch → Rewriter → List ℕ → Rewriter
unfolding rewrite_step
rewrite_loop metric nmatch pmatch r [] = rewrite_step metric nmatch pmatch r 0
rewrite_loop metric nmatch pmatch r (c ∷ s) =
    rewrite_loop metric nmatch pmatch (rewrite_step metric nmatch pmatch r c) s

abbrev pub undo_last : List ℕ → List ℕ
undo_last [] = []
undo_last (c ∷ s) = s

-- The part behind the match, and the data part: the new line, last byte first, and the offset of
-- its first space.
unfoldable pub finish : List ℕ → ℕ → ℕ → List ℕ → Option (List ℕ × ℕ)
finish metric firstspace eo out =
    if leb eo (length out + firstspace) && ltb (length out + firstspace - eo) metric_bufsiz
    then (let out' = append_rev out (slice metric eo firstspace) in
        if ltb (length out' + length (drop firstspace metric)) metric_bufsiz
        then some (append_rev [] out' ++ drop firstspace metric, length out')
        else none)
    else none

-- the leading part and the loop; what is written, last byte first
unfoldable pub rewritten : List ℕ → List ℕ → ℕ → List RegMatch → ℕ → List ℕ
unfolding rewrite_loop
rewritten metric replacement nmatch pmatch so =
    undo_last
      (rewrite_loop metric nmatch pmatch
        (record { out = append_rev [] (take so metric); escape = 0; ref = 0; rcase = retain })
        replacement).out

unfoldable pub rewrite_match :
    List ℕ → ℕ → List ℕ → ℕ → List RegMatch → RegMatch → Option (List ℕ × ℕ)
unfolding rewritten finish
rewrite_match metric firstspace replacement nmatch pmatch none = none
rewrite_match metric firstspace replacement nmatch pmatch (some (so, eo)) =
    if ltb so metric_bufsiz
    then finish metric firstspace eo (rewritten metric replacement nmatch pmatch so)
    else none

-- `router_rewrite_metric`: the new line and the offset of its first space, or `none` for a result
-- of 0. With -1 for the start of `pmatch[0]` the first comparison of sizes fails.
unfoldable pub router_rewrite_metric : List ℕ → ℕ → List ℕ → ℕ → List RegMatch → Option (List ℕ × ℕ)
unfolding rewrite_match
router_rewrite_metric metric firstspace replacement nmatch pmatch =
    rewrite_match metric firstspace replacement nmatch pmatch (get_or pmatch 0 none)
