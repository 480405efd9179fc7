-- ===== src/Ring/Tests.antt =====
-- Runs of consistent-hash.c on small rings, and each theorem at an input.
use Prim.Native.Nat.{Ordering}
use mathlib.Core.List.{Perm}
use native.Mathlib.Nat.{le-div_iff_mul-le}
use carbon_c_relay.Prelude.{
  ℕ, zero, suc, ◌+◌, ◌*◌, ◌/◌, ◌^◌, ◌≤◌, ◌<◌, ◌≡◌, refl, none, some, List, [], ◌∷◌, ◌++◌, arith,
  length, take, drop, inl, inr, map, get_elem?,
}
use carbon_c_relay.Prelude.Bytes.{codes}
use carbon_c_relay.Prelude.Int.{ℤ, pos}
use carbon_c_relay.Server.{Server, linemode}
use carbon_c_relay.Ring.{
  Entry, ChRing, carbon, carbon_key, fnv1a_key, carbon_hashpos, fnv1a_hashpos, jump_fnv1a,
}
use carbon_c_relay.Ring.Build.{new_entries, comparator, ch_addnode}
use carbon_c_relay.Ring.Get.{search, jump_nodes, ch_get_nodes, ch_gethashpos}
use carbon_c_relay.Ring.Sorted.{IsSettled, ch_addnode-IsSettled}
use carbon_c_relay.Ring.Owner.{Owns, round, search-owner}
use carbon_c_relay.Ring.Fetch.{distinct_onto, rotation}
use carbon_c_relay.Ring.Nodes.{Serves, ch_get_nodes-Serves}
use carbon_c_relay.Ring.Position.{ch_gethashpos-ch_get_nodes}
use carbon_c_relay.Ring.Jump.{jump_nodes_lem}

abbrev host : ℕ → Server
host n = record { id = n; ip = n ∷ []; port = 2003; instance_name = none; type = linemode }

abbrev at_pos : ℕ → ℕ → Entry
at_pos p n = record { pos = p; server = host n }

abbrev four : List Entry
four = at_pos 10 1 ∷ at_pos 20 2 ∷ at_pos 20 2 ∷ at_pos 30 1 ∷ []

carbon_key-host :
    carbon_key (record (host 1) { ip = codes "127.0.0.1"; instance_name = some (codes "a") }) 7
    ≡ codes "('127.0.0.1', 'a'):7"
unfolding carbon_key
carbon_key-host = refl

fnv1a_key-host :
    fnv1a_key (record (host 1) { ip = codes "127.0.0.1" }) 12 ≡ codes "12-127.0.0.1:2003"
unfolding fnv1a_key
fnv1a_key-host = refl

fnv1a_hashpos-foobar : fnv1a_hashpos (codes "foobar") ≡ 18164
unfolding fnv1a_hashpos
fnv1a_hashpos-foobar = refl

-- Past the last entry the search reads one entry too far, and yet stops past the end.
search_past_end : (search 0 four 31 5 0 4 ≡ some 5) × (search 99 four 31 5 0 4 ≡ some 4)
unfolding search
search_past_end = (refl, refl)

four-IsSettled : IsSettled four
four-IsSettled =
    (omega arith, inr (omega arith), (omega arith, inl refl, (omega arith, inr (omega arith), tt)))

search-owner_example : Owns four 25 (search 0 four 25 5 0 4)
search-owner_example = search-owner 0 four 25 four-IsSettled (omega arith)

abbrev insert_by : (Entry → Entry → Ordering) → Entry → List Entry → List Entry
insert_by cmp e [] = e ∷ []
insert_by cmp e (f ∷ es) = elim (cmp e f) [
  | Ordering.gt ↦ f ∷ insert_by cmp e es
  | _ ↦ e ∷ (f ∷ es)
]

abbrev insertion_sort : (Entry → Entry → Ordering) → List Entry → List Entry
insertion_sort cmp [] = []
insertion_sort cmp (e ∷ es) = insert_by cmp e (insertion_sort cmp es)

abbrev toy_md5 : List ℕ → List ℕ
toy_md5 key = 0 ∷ 5 ∷ []

abbrev toy_strtol : List ℕ → ℤ × List ℕ
toy_strtol s = (pos 0, s)

-- one entry short of complete
abbrev open_ring : ChRing
open_ring = record { type = carbon; replicas = 1; entrysize = 2; entrylist = at_pos 9 1 ∷ [] }

ch_addnode-IsSettled_example :
    IsSettled (ch_addnode toy_md5 toy_strtol insertion_sort open_ring (host 2)).entrylist
unfolding new_entries comparator
ch_addnode-IsSettled_example =
    ch_addnode-IsSettled toy_md5 toy_strtol insertion_sort open_ring (host 2) (cc) refl ((cc), tt)

names_two_from : (r : ℕ) → r < 4 → 2 ≤ length (distinct_onto [] (drop r four ++ take r four))
unfolding distinct_onto
names_two_from zero h = omega arith
names_two_from (suc zero) h = omega arith
names_two_from (suc (suc zero)) h = omega arith
names_two_from (suc (suc (suc zero))) h = omega arith
names_two_from (suc (suc (suc (suc r)))) h = absurd (omega arith)

names_two : (t : ℕ) → 2 ≤ length (distinct_onto [] (rotation four t))
names_two t = names_two_from (round four t) (ground arith)

-- the step of the jump hash in exact arithmetic
abbrev leap : ℕ → ℕ → ℕ
leap b r = (b + 1) * 2 ^ 31 / (r + 1)

leap_grows : (b r : ℕ) → r < 2 ^ 31 → b < leap b r
leap_grows b r h = (le-div_iff_mul-le (omega arith)).1 (grind arith)

abbrev whole_ring : ChRing
whole_ring = record { type = carbon; replicas = 2; entrysize = 4; entrylist = four }

ch_get_nodes-Serves_example :
    Serves four
      (carbon_hashpos toy_md5 (codes "a.b"))
      2
      (ch_get_nodes leap toy_md5 0 5 whole_ring 2 (codes "a.b"))
ch_get_nodes-Serves_example =
    ch_get_nodes-Serves leap toy_md5 0 5 whole_ring 2 (codes "a.b") (cc) four-IsSettled
      (omega arith) (omega arith) names_two (omega arith)

jump_nodes_lem_example :
    (chosen : List Server) × (others : List Server) × (jump_nodes leap 3
        (host 1 ∷ host 2 ∷ host 3 ∷ [])
        2
        42
      ≡ some chosen)
    × Perm (chosen ++ others) (host 1 ∷ host 2 ∷ host 3 ∷ [])
    × (length chosen ≡ 2)
jump_nodes_lem_example =
    jump_nodes_lem leap leap_grows (host 1 ∷ host 2 ∷ host 3 ∷ []) 2 42 (omega arith) (omega arith)
      (omega arith)

ch_gethashpos-ch_get_nodes_example :
    (let ring : ChRing = record {
      type = jump_fnv1a;
      replicas = 1;
      entrysize = 2;
      entrylist = at_pos 0 1 ∷ (at_pos 1 2 ∷ []);
    } in
      (p : ℕ) × (s : Server) × (ch_gethashpos leap toy_md5 ring (codes "a.b") ≡ some p)
      × (get_elem? (map (λ e. e.server) (at_pos 0 1 ∷ (at_pos 1 2 ∷ []))) p ≡ some s)
      × (ch_get_nodes leap toy_md5 0 5 ring 1 (codes "a.b") ≡ some (s ∷ [])))
ch_gethashpos-ch_get_nodes_example =
    ch_gethashpos-ch_get_nodes leap leap_grows toy_md5 0 5 1 2 (at_pos 0 1) (at_pos 1 2 ∷ [])
      (codes "a.b") (omega arith)
