-- ===== src/Ring/Position.antt =====
-- `ch_gethashpos`, which is printed for a metric, and the servers that `ch_get_nodes` chooses.
use carbon_c_relay.Prelude.{
  ℕ, suc, ◌%◌, ◌^◌, ◌<◌, ◌≡◌, refl, ap, some, List, [], ◌∷◌, arith, length, length-map, map,
  get_elem?,
}
use carbon_c_relay.Server.{Server}
use carbon_c_relay.Hash.{fnv1a_64, fnv1a_64-lt}
use carbon_c_relay.Ring.{Entry, ChRing, jump_fnv1a}
use carbon_c_relay.Ring.Get.{jump_bucketpos, jump_nodes, ch_get_nodes, ch_gethashpos}
use carbon_c_relay.Ring.Jump.{jump_bucketpos-lt, get_elem?-lt}

mod_lem : (b : ℕ) → b < 2 ^ 16 → b % 2 ^ 16 ≡ b
mod_lem b h = omega arith

module _ (leap : ℕ → ℕ → ℕ) (grows : (b r : ℕ) → r < 2 ^ 31 → b < leap b r) where
  one_node :
      (bcklst : List Server) (i hash b : ℕ) (s : Server)
      → jump_bucketpos leap hash (suc i) ≡ some b
      → get_elem? bcklst b ≡ some s
      → jump_nodes leap (suc i) bcklst 1 hash ≡ some (s ∷ [])
  unfolding jump_nodes
  one_node bcklst i hash b s bucket found = rw (jump_nodes, bucket, found) refl

  printed :
      (md5 : List ℕ → List ℕ) (replicas size : ℕ) (e : Entry) (es : List Entry) (key : List ℕ)
      (b : ℕ)
      → jump_bucketpos leap (fnv1a_64 key) (suc (length es)) ≡ some b
      → b < 2 ^ 16
      → ch_gethashpos leap md5
          (record { type = jump_fnv1a; replicas = replicas; entrysize = size; entrylist = e ∷ es })
          key
        ≡ some b
  unfolding ch_gethashpos
  printed md5 replicas size e es key b bucket small =
      rw (ch_gethashpos, bucket) (ap some (mod_lem b small))

  -- On a jump ring of between 1 and 2^16 - 1 servers the position printed for a metric is that of the
  -- server which `ch_get_nodes` chooses for it, if the floating-point step leads to a higher bucket.
  pub ch_gethashpos-ch_get_nodes :
      (md5 : List ℕ → List ℕ) (beyond fuel replicas size : ℕ) (e : Entry) (es : List Entry)
      (key : List ℕ)
      → length (e ∷ es) < 2 ^ 16
      → let ring : ChRing = record {
        type = jump_fnv1a;
        replicas = replicas;
        entrysize = size;
        entrylist = e ∷ es;
      } in
        (p : ℕ) × (s : Server) × (ch_gethashpos leap md5 ring key ≡ some p)
        × (get_elem? (map (λ e. e.server) (e ∷ es)) p ≡ some s)
        × (ch_get_nodes leap md5 beyond fuel ring 1 key ≡ some (s ∷ []))
  unfolding ch_gethashpos ch_get_nodes
  ch_gethashpos-ch_get_nodes md5 beyond fuel replicas size e es key few =
      let (b, bucket, below) =
        jump_bucketpos-lt leap grows (fnv1a_64 key) (length (e ∷ es)) (fnv1a_64-lt key)
          (omega arith) in
      let (s, found) =
        get_elem?-lt (map (λ e. e.server) (e ∷ es)) b
          (omega (arith, length-map (e ∷ es) (λ e. e.server))) in
      (
        b,
        s,
        printed md5 replicas size e es key b bucket (omega arith),
        found,
        one_node (map (λ e. e.server) (e ∷ es)) (length es) (fnv1a_64 key) b s bucket found,
      )
