-- ===== src/Ring/Build.antt =====
-- consistent-hash.c: `ch_new` and `ch_addnode`.
use Prim.Native.Nat.{Ordering}
use carbon_c_relay.Prelude.{
  ℕ, zero, suc, ◌+◌, ◌*◌, Bool, Option, none, some, List, [], ◌∷◌, ◌++◌, if◌then◌else◌, ◌==◌, ltb,
  length,
}
use carbon_c_relay.Prelude.Int.{ℤ}
use carbon_c_relay.Server.{Server}
use carbon_c_relay.Ring.{
  ChType, carbon, fnv1a, jump_fnv1a, Entry, ChRing, hash_replicas, conn_dests_size, carbon_hashpos,
  fnv1a_hashpos, entrycmp_carbon, entrycmp_fnv1a, entrycmp_jump_fnv1a, carbon_key, fnv1a_key,
}

unfoldable pub replicas_of : ChType → ℕ
replicas_of carbon = hash_replicas
replicas_of fnv1a = hash_replicas
replicas_of jump_fnv1a = 1

-- `ch_new`; `stored` says whether both allocations succeed
unfoldable pub ch_new : Bool → ChType → ℕ → Option ChRing
unfolding replicas_of
ch_new stored type servercnt =
    if ltb conn_dests_size servercnt
    then none
    else if stored
    then some (record {
      type = type;
      replicas = replicas_of type;
      entrysize = replicas_of type * servercnt;
      entrylist = [];
    })
    else none

-- The loop over the replicas `i`, `i + 1`, …: `n` entries for the server `s`.
unfoldable pub replica_entries : (ℕ → ℕ) → Server → ℕ → ℕ → List Entry
replica_entries hashpos s i zero = []
replica_entries hashpos s i (suc n) =
    record { pos = hashpos i; server = s } ∷ replica_entries hashpos s (i + 1) n

-- `entrylist[i + 1].server = entrylist[i].server` where the positions are equal, from left to right
unfoldable pub overwrite_duplicates : List Entry → List Entry
overwrite_duplicates [] = []
overwrite_duplicates (e ∷ []) = e ∷ []
overwrite_duplicates (e ∷ (f ∷ es)) =
    e ∷ overwrite_duplicates ((if e.pos == f.pos then record f { server = e.server } else f) ∷ es)

module _ (md5 : List ℕ → List ℕ) where
  unfoldable pub new_entries : ChRing → Server → List Entry
  unfolding replica_entries carbon_hashpos carbon_key fnv1a_hashpos fnv1a_key
  new_entries ring s = elim ring.type [
    | carbon ↦ replica_entries (λ i. carbon_hashpos md5 (carbon_key s i)) s 0 ring.replicas
    | fnv1a ↦ replica_entries (λ i. fnv1a_hashpos (fnv1a_key s i)) s 0 ring.replicas
    | jump_fnv1a ↦ record { pos = length ring.entrylist; server = s } ∷ []
  ]

module _ (strtol : List ℕ → ℤ × List ℕ) where
  unfoldable pub comparator : ChType → Entry → Entry → Ordering
  unfolding entrycmp_carbon entrycmp_fnv1a entrycmp_jump_fnv1a
  comparator carbon = entrycmp_carbon
  comparator fnv1a = entrycmp_fnv1a
  comparator jump_fnv1a = entrycmp_jump_fnv1a strtol

module _ (md5 : List ℕ → List ℕ) (strtol : List ℕ → ℤ × List ℕ)
    (qsort : (Entry → Entry → Ordering) → List Entry → List Entry) where
  -- `ch_addnode`: the last server's entries complete the ring, which is then sorted
  unfoldable pub ch_addnode : ChRing → Server → ChRing
  unfolding new_entries comparator overwrite_duplicates
  ch_addnode ring s =
      let entries = ring.entrylist ++ new_entries md5 ring s in
      if length entries == ring.entrysize
      then record ring {
        entrylist = overwrite_duplicates (qsort (comparator strtol ring.type) entries);
      }
      else record ring { entrylist = entries }
