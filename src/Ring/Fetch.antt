-- ===== src/Ring/Fetch.antt =====
-- The walk of `ch_get_nodes` round the ring: the first different servers, in ring order.
use mathlib.Core.Path.{subst}
use native.Mathlib.Nat.{add-zero}
use mathlib.Core.List.{append_assoc, append-nil}
use carbon_c_relay.Prelude.{
  ℕ, zero, suc, ◌+◌, ◌≤◌, ◌<◌, ◌≡◌, refl, sym, ◌∙◌, ap, false, some, List, [], ◌∷◌, ◌++◌, arith,
  length, length-append, length-take, take, drop, take-append-drop, get_elem?, Bool-cases, ltb,
  if◌then◌else◌, ◌==◌, inl, inr,
}
use carbon_c_relay.Server.{Server}
use carbon_c_relay.Ring.{Entry}
use carbon_c_relay.Ring.Get.{has_server, fetch}
use carbon_c_relay.Ring.Owner.{round}

-- The servers of the entries, each once, in order of their first entry, after those of `ret`.
unfoldable pub distinct_onto : List Server → List Entry → List Server
unfolding has_server
distinct_onto ret [] = ret
distinct_onto ret (e ∷ es) =
    distinct_onto (if has_server e.server ret then ret else ret ++ (e.server ∷ [])) es

-- No server stands twice in the list.
abbrev pub IsDistinct : List Server → Type 0
IsDistinct [] = Unit
IsDistinct (s ∷ ss) = (has_server s ss ≡ false) × IsDistinct ss

has_server-snoc :
    (s x : Server) (ss : List Server)
    → has_server s ss ≡ false
    → (x.id == s.id) ≡ false
    → has_server s (ss ++ (x ∷ [])) ≡ false
unfolding has_server
has_server-snoc s x [] h e = ground arith
has_server-snoc s x (r ∷ ss) h e = ground (arith, has_server-snoc s x ss)

IsDistinct-snoc :
    (x : Server) (ss : List Server)
    → IsDistinct ss
    → has_server x ss ≡ false
    → IsDistinct (ss ++ (x ∷ []))
unfolding has_server
IsDistinct-snoc x [] d h = (refl, tt)
IsDistinct-snoc x (s ∷ ss) d h =
    (has_server-snoc s x ss d.0 (ground arith), IsDistinct-snoc x ss d.1 (ground arith))

pub distinct_onto-IsDistinct :
    (ret : List Server) (es : List Entry) → IsDistinct ret → IsDistinct (distinct_onto ret es)
unfolding distinct_onto
distinct_onto-IsDistinct ret [] d = d
distinct_onto-IsDistinct ret (e ∷ es) d = elim (Bool-cases (has_server e.server ret)) [
  | inl old ↦ rw old (distinct_onto-IsDistinct ret es d)
  | inr new ↦
      rw new
        (distinct_onto-IsDistinct (ret ++ (e.server ∷ [])) es (IsDistinct-snoc e.server ret d new))
]

has_server-take :
    (s : Server) (n : ℕ) (ss : List Server)
    → has_server s ss ≡ false
    → has_server s (take n ss) ≡ false
unfolding has_server
has_server-take s zero ss h = refl
has_server-take s (suc n) [] h = refl
has_server-take s (suc n) (r ∷ ss) h = ground (arith, has_server-take s n ss)

IsDistinct-take : (n : ℕ) (ss : List Server) → IsDistinct ss → IsDistinct (take n ss)
IsDistinct-take zero ss d = tt
IsDistinct-take (suc n) [] d = tt
IsDistinct-take (suc n) (s ∷ ss) d = (has_server-take s n ss d.0, IsDistinct-take n ss d.1)

take-append_le : (n : ℕ) (xs ys : List Server) → n ≤ length xs → take n (xs ++ ys) ≡ take n xs
take-append_le zero xs ys h = refl
take-append_le (suc n) [] ys h = absurd (omega arith)
take-append_le (suc n) (x ∷ xs) ys h = ap (λ r. x ∷ r) (take-append_le n xs ys (omega arith))

take_all : (n : ℕ) (xs : List Server) → n ≡ length xs → take n xs ≡ xs
take_all zero [] h = refl
take_all zero (x ∷ xs) h = absurd (omega arith)
take_all (suc n) [] h = refl
take_all (suc n) (x ∷ xs) h = ap (λ r. x ∷ r) (take_all n xs (omega arith))

-- Servers once found stay in front.
take-distinct_onto :
    (n : ℕ) (ret : List Server) (es : List Entry)
    → n ≤ length ret
    → take n (distinct_onto ret es) ≡ take n ret
unfolding distinct_onto
take-distinct_onto n ret [] h = refl
take-distinct_onto n ret (e ∷ es) h = elim (Bool-cases (has_server e.server ret)) [
  | inl old ↦ rw old (take-distinct_onto n ret es h)
  | inr new ↦ rw new (
      take-distinct_onto n (ret ++ (e.server ∷ [])) es
        (omega (arith, length-append ret (e.server ∷ [])))
      ∙ take-append_le n ret (e.server ∷ []) h)
]

module _ (es : List Entry) where
  -- The walk from `t` on meets the entries `xs` next.
  abbrev Follows : ℕ → List Entry → Type 0
  Follows t [] = Unit
  Follows t (x ∷ xs) = (get_elem? es (round es t) ≡ some x) × Follows (round es t + 1) xs

  Follows-round :
      (t u : ℕ) (xs : List Entry) → round es t ≡ round es u → Follows u xs → Follows t xs
  Follows-round t u [] e h = tt
  Follows-round t u (x ∷ xs) e h = rw e h

  fetch-Follows :
      (n : ℕ) (xs : List Entry) (fuel t : ℕ) (ret : List Server)
      → Follows t xs
      → length ret ≤ n
      → n ≤ length (distinct_onto ret xs)
      → length xs < fuel
      → fetch es n fuel t ret ≡ some (take n (distinct_onto ret xs))
  unfolding fetch distinct_onto
  fetch-Follows n xs zero t ret f a b c = absurd (omega arith)
  fetch-Follows n [] (suc fuel) t ret f a b c = ground (arith, take_all n ret)
  fetch-Follows n (x ∷ xs) (suc fuel) t ret f a b c = elim (Bool-cases (ltb (length ret) n)) [
    | inl more ↦
        rw (more, f.0)
          (fetch-Follows n xs fuel (round es t + 1)
            (if has_server x.server ret then ret else ret ++ (x.server ∷ [])) f.1
            (ground (arith, length-append ret (x.server ∷ []))) b (omega arith))
    | inr done ↦ rw done (
        ap (λ r. some r)
          (sym (take_all n ret (ground arith))
            ∙ sym (take-distinct_onto n ret (x ∷ xs) (ground arith))))
  ]

  get_elem?-middle :
      (pre : List Entry) (x : Entry) (post : List Entry)
      → get_elem? (pre ++ (x ∷ post)) (length pre) ≡ some x
  get_elem?-middle [] x post = refl
  get_elem?-middle (y ∷ pre) x post = get_elem?-middle pre x post

  Follows-segment :
      (xs pre post ys : List Entry) (t : ℕ)
      → es ≡ pre ++ (xs ++ post)
      → round es t ≡ round es (length pre)
      → Follows (length pre + length xs) ys
      → Follows t (xs ++ ys)
  Follows-segment [] pre post ys t e r f = Follows-round t (length pre) ys r (rw add-zero at f)
  Follows-segment (x ∷ xs) pre post ys t e r f =
      let inside : length pre < length es =
        rw e (omega (arith, length-append pre (x ∷ (xs ++ post)))) in
      let at : round es t ≡ length pre = ground arith in
      let longer : length (pre ++ (x ∷ [])) ≡ length pre + 1 =
        omega (arith, length-append pre (x ∷ [])) in
      (
        rw at (ap (λ l. get_elem? l (length pre)) e ∙ get_elem?-middle pre x (xs ++ post)),
        Follows-segment xs (pre ++ (x ∷ [])) post ys (round es t + 1)
            (e ∙ sym (append_assoc pre (x ∷ []) (xs ++ post))) (rw (at, longer))
            (subst (λ m. Follows m ys) (omega arith) f),
      )

  -- the ring from entry `t` on, once round
  abbrev pub rotation : ℕ → List Entry
  rotation t = drop (round es t) es ++ take (round es t) es

  Follows-rotation : (t : ℕ) → 0 < length es → Follows t (rotation t)
  Follows-rotation t h =
      let r = round es t in
      let cut : length (take r es) ≡ r = ground (arith, length-take r es) in
      Follows-segment (drop r es) (take r es) [] (take r es) t
        (sym (rw append-nil (take-append-drop r es))) (rw cut (ground arith))
        (subst (λ m. Follows m (take r es))
          (sym (ap length (take-append-drop r es)) ∙ length-append (take r es) (drop r es))
          (rw append-nil at (
            Follows-segment (take r es) [] (drop r es) [] (length es) (sym (take-append-drop r es))
              (ground arith) tt)))

  length-rotation : (t : ℕ) → length (rotation t) ≡ length es
  length-rotation t =
      let r = round es t in
      omega (
        arith,
        length-append (drop r es) (take r es),
        length-append (take r es) (drop r es),
        ap length (take-append-drop r es),
      )

  -- From entry `t` the walk fetches the first `n` different servers of the ring, in ring order and
  -- each once, in one round of the ring and one more test, if the ring names that many.
  pub fetch_lem :
      (n fuel t : ℕ)
      → 0 < length es
      → n ≤ length (distinct_onto [] (rotation t))
      → length es < fuel
      → (fetch es n fuel t [] ≡ some (take n (distinct_onto [] (rotation t))))
        × IsDistinct (take n (distinct_onto [] (rotation t)))
  fetch_lem n fuel t h enough more = (
    fetch-Follows n (rotation t) fuel t [] (Follows-rotation t h) (omega arith) enough
        (omega (arith, length-rotation t)),
    IsDistinct-take n (distinct_onto [] (rotation t)) (distinct_onto-IsDistinct [] (rotation t) tt),
  )
