-- ===== src/Ring/Get.antt =====
-- consistent-hash.c: `ch_get_nodes`, with its binary search, its walk round the ring, and the jump
-- hash.
use Prim.Native.Nat.{bit_xor}
use carbon_c_relay.Prelude.{
  ℕ, zero, suc, ◌+◌, ◌-◌, ◌*◌, ◌/◌, ◌%◌, ◌^◌, Bool, false, ◌||◌, Option, none, some, List, [], ◌∷◌,
  ◌++◌, map, if◌then◌else◌, ◌==◌, ltb, leb, length, get_elem?, set,
}
use carbon_c_relay.Hash.{fnv1a_64}
use carbon_c_relay.Server.{Server}
use carbon_c_relay.Ring.{
  ChType, carbon, fnv1a, jump_fnv1a, Entry, ChRing, carbon_hashpos, fnv1a_hashpos,
}

module _ (beyond : ℕ) (es : List Entry) (pos : ℕ) where
  -- `entrylist[i].pos`; `beyond` is what the memory after the last entry holds
  abbrev pub pos_at : ℕ → ℕ
  pos_at i = elim (get_elem? es i) [ none ↦ beyond | some e ↦ e.pos ]

  -- The binary search for the first entry at or after `pos`, on fuel.
  unfoldable pub search : ℕ → ℕ → ℕ → Option ℕ
  search zero i j = none
  search (suc fuel) i j =
      let t = (i + j) / 2 in
      let right = search fuel t j in
      let left = search fuel i t in
      if pos_at t == pos
      then some t
      else if ltb (pos_at t) pos
      then if t + 1 == j then (if ltb (pos_at j) pos then some (j + 1) else some j) else right
      else if i + 1 == t
      then (if leb pos (pos_at i) then some i else some t)
      else left

-- `ret[j].dest == s` for an entry of `ret`
unfoldable pub has_server : Server → List Server → Bool
has_server s [] = false
has_server s (r ∷ rs) = (r.id == s.id) || has_server s rs

-- The walk from entry `t` on until `replcnt` different servers are found, on fuel. (`ret` holds
-- the `i` servers found.)
unfoldable pub fetch : List Entry → ℕ → ℕ → ℕ → List Server → Option (List Server)
unfolding has_server
fetch es replcnt zero t ret = none
fetch es replcnt (suc fuel) t ret =
    if ltb (length ret) replcnt
    then (let t' = if leb (length es) t then 0 else t in
        elim (get_elem? es t') [
          | none ↦ none
          | some e ↦
              fetch es replcnt fuel (t' + 1)
                (if has_server e.server ret then ret else ret ++ (e.server ∷ []))
        ])
    else some ret

-- `bcklst[j] = bcklst[i]`
unfoldable pub move_last : List Server → ℕ → ℕ → List Server
move_last bcklst i j = elim (get_elem? bcklst i) [ none ↦ bcklst | some last ↦ set bcklst j last ]

-- The binary search and the walk from where it stops.
unfoldable pub walk_from : ℕ → List Entry → ℕ → Option ℕ → Option (List Server)
unfolding fetch
walk_from fuel es replcnt none = none
walk_from fuel es replcnt (some t) = fetch es replcnt fuel t []

unfoldable pub ring_nodes : ℕ → ℕ → List Entry → ℕ → ℕ → Option (List Server)
unfolding search walk_from
ring_nodes beyond fuel es replcnt pos =
    walk_from fuel es replcnt (search beyond es pos (suc (length es)) 0 (length es))

-- the xorshift that follows each choice
unfoldable pub xorshift : ℕ → ℕ
xorshift h =
    let a = bit_xor h (h / 2 ^ 12) in
    let b = bit_xor a (a * 2 ^ 25 % 2 ^ 64) in
    let c = bit_xor b (b / 2 ^ 27) in c * 2685821657736338717 % 2 ^ 64

module _ (leap : ℕ → ℕ → ℕ) where
  -- the loop of `jump_bucketpos`, on fuel; `b` is the last bucket jumped to
  unfoldable pub jump_loop : ℕ → ℕ → ℕ → ℕ → ℕ → Option ℕ
  jump_loop zero bckcnt key b j = none
  jump_loop (suc fuel) bckcnt key b j =
      let key' = (key * 2862933555777941757 + 1) % 2 ^ 64 in
      let rest = jump_loop fuel bckcnt key' j (leap j (key' / 2 ^ 33)) in
      if ltb j bckcnt then rest else some b

  -- `jump_bucketpos`; a bucket count of 0 fails its assertion. Each round moves on by one bucket
  -- at least, so `bckcnt` rounds and the last test suffice.
  unfoldable pub jump_bucketpos : ℕ → ℕ → Option ℕ
  unfolding jump_loop
  jump_bucketpos key zero = none
  jump_bucketpos key (suc n) = jump_loop (suc (suc n)) (suc n) key 0 0

  -- The loop of the jump hash: `i` buckets are left in `bcklst`, and `left` is `pos`, an unsigned
  -- short. The servers written to `ret`; `none` if a bucket number falls outside the list.
  unfoldable pub jump_nodes : ℕ → List Server → ℕ → ℕ → Option (List Server)
  unfolding jump_bucketpos xorshift move_last
  jump_nodes zero bcklst left hash = some []
  jump_nodes (suc i) bcklst left hash = elim (jump_bucketpos hash (suc i)) [
    | none ↦ none
    | some j ↦ elim (get_elem? bcklst j) [
      | none ↦ none
      | some s ↦
          let left' = (left + 2 ^ 16 - 1) % 2 ^ 16 in
          let bcklst' = move_last bcklst i j in
          let rest = jump_nodes i bcklst' left' (xorshift hash) in
          if left' == 0
          then some (s ∷ [])
          else elim rest [ none ↦ none | some ret ↦ some (s ∷ ret) ]
    ]
  ]

  -- the three ways of `ch_get_nodes`
  unfoldable pub nodes_by_type :
      (List ℕ → List ℕ) → ℕ → ℕ → ChType → List Entry → ℕ → List ℕ → Option (List Server)
  unfolding ring_nodes jump_nodes carbon_hashpos fnv1a_hashpos fnv1a_64
  nodes_by_type md5 beyond fuel carbon es replcnt key =
      ring_nodes beyond fuel es replcnt (carbon_hashpos md5 key)
  nodes_by_type md5 beyond fuel fnv1a es replcnt key =
      ring_nodes beyond fuel es replcnt (fnv1a_hashpos key)
  nodes_by_type md5 beyond fuel jump_fnv1a es replcnt key =
      jump_nodes (length es) (map (λ e. e.server) es) replcnt (fnv1a_64 key)

  -- `ch_get_nodes`: the servers written to `ret` for the metric `key`
  unfoldable pub ch_get_nodes :
      (List ℕ → List ℕ) → ℕ → ℕ → ChRing → ℕ → List ℕ → Option (List Server)
  unfolding nodes_by_type
  ch_get_nodes md5 beyond fuel ring replcnt key =
      nodes_by_type md5 beyond fuel ring.type ring.entrylist replcnt key

  -- `ch_gethashpos`, an unsigned short
  unfoldable pub ch_gethashpos : (List ℕ → List ℕ) → ChRing → List ℕ → Option ℕ
  unfolding jump_bucketpos carbon_hashpos fnv1a_hashpos fnv1a_64
  ch_gethashpos md5 ring key = elim ring.type [
    | carbon ↦ some (carbon_hashpos md5 key)
    | fnv1a ↦ some (fnv1a_hashpos key)
    | jump_fnv1a ↦ elim (jump_bucketpos (fnv1a_64 key) (length ring.entrylist)) [
      | none ↦ none
      | some b ↦ some (b % 2 ^ 16)
    ]
  ]
