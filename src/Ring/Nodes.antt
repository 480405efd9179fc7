-- ===== src/Ring/Nodes.antt =====
-- `ch_get_nodes` on a searched ring, from the position to the servers.
use carbon_c_relay.Prelude.{
  ℕ, zero, suc, ◌≤◌, ◌<◌, ◌≡◌, refl, ◌∙◌, ◌≢◌, Option, none, some, List, [], ◌∷◌, ◌++◌, arith,
  length, length-take, take, drop, Bool-cases, inl, inr,
}
use carbon_c_relay.Server.{Server}
use carbon_c_relay.Ring.{
  Entry, ChRing, ChType, carbon, fnv1a, jump_fnv1a, carbon_hashpos, fnv1a_hashpos,
}
use carbon_c_relay.Ring.Get.{
  search, fetch, has_server, walk_from, ring_nodes, nodes_by_type, ch_get_nodes,
}
use carbon_c_relay.Ring.Sorted.{IsSettled}
use carbon_c_relay.Ring.Owner.{server_at, round, owner, Owns, search-owner}
use carbon_c_relay.Ring.Fetch.{distinct_onto, IsDistinct, rotation, fetch_lem}

abbrev pub first : List Server → Option Server
first [] = none
first (s ∷ ss) = some s

first-distinct_onto :
    (s : Server) (ret : List Server) (es : List Entry) → first (distinct_onto (s ∷ ret) es) ≡ some s
unfolding distinct_onto
first-distinct_onto s ret [] = refl
first-distinct_onto s ret (e ∷ es) = elim (Bool-cases (has_server e.server (s ∷ ret))) [
  | inl old ↦ rw old (first-distinct_onto s ret es)
  | inr new ↦ rw new (first-distinct_onto s (ret ++ (e.server ∷ [])) es)
]

first-take : (n : ℕ) (ss : List Server) → 0 < n → first (take n ss) ≡ first ss
first-take zero ss h = absurd (omega arith)
first-take (suc n) [] h = refl
first-take (suc n) (s ∷ ss) h = refl

first-distinct :
    (es ys : List Entry) (r : ℕ)
    → r < length es
    → first (distinct_onto [] (drop r es ++ ys)) ≡ server_at es r
unfolding distinct_onto has_server
first-distinct [] ys r h = absurd (omega arith)
first-distinct (e ∷ es) ys zero h = first-distinct_onto e.server [] (es ++ ys)
first-distinct (e ∷ es) ys (suc r) h = first-distinct es ys r (omega arith)

-- What a search of the ring for `n` servers from position `pos` gives.
abbrev pub Serves : List Entry → ℕ → ℕ → Option (List Server) → Type 0
Serves es pos n none = ⊥
Serves es pos n (some ss) = (length ss ≡ n) × IsDistinct ss × (first ss ≡ owner es pos)

module _ (es : List Entry) (pos n fuel : ℕ) (settled : IsSettled es) (two : 2 ≤ length es)
    (one : 0 < n) (enough : (t : ℕ) → n ≤ length (distinct_onto [] (rotation es t)))
    (more : length es < fuel) where
  fetch-Serves :
      (t : ℕ) → server_at es (round es t) ≡ owner es pos → Serves es pos n (fetch es n fuel t [])
  fetch-Serves t owns =
      let f = fetch_lem es n fuel t (omega arith) (enough t) more in
      rw (f.0) (
        length-take n (distinct_onto [] (rotation es t)) ∙ omega (arith, enough t),
        f.1,
        first-take n (distinct_onto [] (rotation es t)) one
            ∙ first-distinct es (take (round es t) es) (round es t) (ground arith)
            ∙ owns,
      )

  ring_nodes-Serves : (beyond : ℕ) → Serves es pos n (ring_nodes beyond fuel es n pos)
  unfolding ring_nodes walk_from
  ring_nodes-Serves beyond =
      (elim (search beyond es pos (suc (length es)) 0 (length es))
          as (λ r.
            Owns es pos r
            → Serves es pos n (elim r [ none ↦ none | some t ↦ fetch es n fuel t [] ])) [
              | none ↦ λ f. f
              | some t ↦ λ o. fetch-Serves t o
            ])
        (search-owner beyond es pos settled two)

-- The position that `ch_get_nodes` looks for.
abbrev pub metric_pos : (List ℕ → List ℕ) → ChType → List ℕ → ℕ
metric_pos md5 carbon key = carbon_hashpos md5 key
metric_pos md5 _ key = fnv1a_hashpos key

-- On a settled carbon or fnv1a ring of two entries or more that names `n` different servers, counted
-- from any entry, `ch_get_nodes` ends and returns `n` different servers, the first of them the owner
-- of the metric's position. One round of the ring is fuel enough.
pub ch_get_nodes-Serves :
    (leap : ℕ → ℕ → ℕ) (md5 : List ℕ → List ℕ) (beyond fuel : ℕ) (ring : ChRing) (n : ℕ)
    (key : List ℕ)
    → ring.type ≢ jump_fnv1a
    → IsSettled ring.entrylist
    → 2 ≤ length ring.entrylist
    → 0 < n
    → ((t : ℕ) → n ≤ length (distinct_onto [] (rotation ring.entrylist t)))
    → length ring.entrylist < fuel
    → Serves ring.entrylist
        (metric_pos md5 ring.type key)
        n
        (ch_get_nodes leap md5 beyond fuel ring n key)
unfolding ch_get_nodes
ch_get_nodes-Serves leap md5 beyond fuel ring n key searched settled two one enough more =
    nodes_by_type-Serves ring.type searched
  where
    nodes_by_type-Serves :
        (type : ChType)
        → type ≢ jump_fnv1a
        → Serves ring.entrylist
            (metric_pos md5 type key)
            n
            (nodes_by_type leap md5 beyond fuel type ring.entrylist n key)
    nodes_by_type-Serves carbon h =
        ring_nodes-Serves ring.entrylist (carbon_hashpos md5 key) n fuel settled two one enough more
          beyond
    nodes_by_type-Serves fnv1a h =
        ring_nodes-Serves ring.entrylist (fnv1a_hashpos key) n fuel settled two one enough more
          beyond
    nodes_by_type-Serves jump_fnv1a h = absurd (h refl)
