-- ===== src/Ring.antt =====
-- consistent-hash.c: hash rings, built once from the servers of a cluster. What the code takes from
-- elsewhere is a parameter: `md5` gives the 16 bytes of the sum (md5.c is a copy of another
-- project's file), `strtol` the value and the unread rest, and `leap b r` the integer part of
-- (b + 1) * (2^31 / (r + 1)) as the machine's double arithmetic has it.
pub mod Build
pub mod Get
pub mod Sorted
pub mod Search
pub mod Owner
pub mod Fetch
pub mod Nodes
pub mod Jump
pub mod Position
mod Tests
use Prim.Native.Nat.{compare, Ordering, bit_xor}
use carbon_c_relay.Prelude.Bytes.{codes, strcmp, str_eq, decimal}
use carbon_c_relay.Prelude.Int.{ℤ, pos, negsuc, ◌-ℤ◌}
use carbon_c_relay.Prelude.{
  ℕ, ◌+◌, ◌-◌, ◌*◌, ◌/◌, ◌%◌, ◌^◌, none, some, List, [], ◌++◌, if◌then◌else◌, ◌==◌, ltb, get_or,
  take,
}
use carbon_c_relay.Server.{Server}
use carbon_c_relay.Hash.{fnv1a_32}

-- `HASH_REPLICAS`
abbrev pub hash_replicas : ℕ
hash_replicas = 100

-- `CONN_DESTS_SIZE` of router.h
abbrev pub conn_dests_size : ℕ
conn_dests_size = 64

-- `ch_type`
pub data ChType : Type 0 where
  carbon fnv1a jump_fnv1a : ChType

-- `ch_ring_entry`
pub record Entry : Type 0 where
  pub pos : ℕ
  pub server : Server

-- `struct _ch_ring`; the list holds the `entrycnt` entries in use
pub record ChRing : Type 0 where
  pub type : ChType
  pub replicas : ℕ
  pub entrysize : ℕ
  pub entrylist : List Entry

-- The higher 16 bits of the sum.
unfoldable pub carbon_hashpos : (List ℕ → List ℕ) → List ℕ → ℕ
carbon_hashpos md5 key = (get_or (md5 key) 0 0 * 2 ^ 8 + get_or (md5 key) 1 0) % 2 ^ 16

unfoldable pub fnv1a_hashpos : List ℕ → ℕ
unfolding fnv1a_32
fnv1a_hashpos key = let hash = fnv1a_32 key in bit_xor (hash / 2 ^ 16) (hash % 2 ^ 16) % 2 ^ 16

-- The comparators for qsort return an `int` of which only the sign counts.
unfoldable pub entrycmp_carbon : Entry → Entry → Ordering
unfolding strcmp
entrycmp_carbon l r = elim (compare l.pos r.pos) [
  | Ordering.lt ↦ Ordering.lt
  | Ordering.gt ↦ Ordering.gt
  | Ordering.eq ↦ elim (strcmp l.server.ip r.server.ip) [
    | Ordering.lt ↦ Ordering.lt
    | Ordering.gt ↦ Ordering.gt
    | Ordering.eq ↦ elim l.server.instance_name [
      | none ↦ elim r.server.instance_name [ none ↦ Ordering.eq | some j ↦ Ordering.gt ]
      | some i ↦ elim r.server.instance_name [ none ↦ Ordering.lt | some j ↦ strcmp i j ]
    ]
  ]
]

unfoldable pub entrycmp_fnv1a : Entry → Entry → Ordering
unfolding strcmp
entrycmp_fnv1a l r = elim (compare l.pos r.pos) [
  | Ordering.lt ↦ Ordering.lt
  | Ordering.gt ↦ Ordering.gt
  | Ordering.eq ↦ elim (strcmp l.server.ip r.server.ip) [
    | Ordering.lt ↦ Ordering.lt
    | Ordering.gt ↦ Ordering.gt
    | Ordering.eq ↦ compare l.server.port r.server.port
  ]
]

-- the sign of `(int)v`
sign_int : ℤ → Ordering
sign_int (pos n) =
    let w = n % 2 ^ 32 in
    if w == 0 then Ordering.eq else if ltb w (2 ^ 31) then Ordering.gt else Ordering.lt
sign_int (negsuc n) =
    let w = (n + 1) % 2 ^ 32 in
    if w == 0 then Ordering.eq else if ltb (2 ^ 31) w then Ordering.gt else Ordering.lt

unfoldable pub entrycmp_jump_fnv1a : (List ℕ → ℤ × List ℕ) → Entry → Entry → Ordering
unfolding strcmp sign_int ◌-ℤ◌ str_eq
entrycmp_jump_fnv1a strtol l r = elim l.server.instance_name [
  | none ↦ elim r.server.instance_name [ none ↦ compare l.pos r.pos | some j ↦ Ordering.gt ]
  | some i ↦ elim r.server.instance_name [
    | none ↦ Ordering.lt
    | some j ↦
        if str_eq (strtol i).1 []
        then if str_eq (strtol j).1 [] then sign_int ((strtol i).0 -ℤ (strtol j).0) else strcmp i j
        else strcmp i j
  ]
]

-- The text that `snprintf` leaves in the 256 bytes of `buf`.
snprintf_buf : List ℕ → List ℕ
snprintf_buf s = take 255 s

-- `"('%s', %s%s%s):%d"`
unfoldable pub carbon_key : Server → ℕ → List ℕ
unfolding snprintf_buf decimal
carbon_key s i = snprintf_buf (
    codes "('"
    ++ (s.ip
        ++ (codes "', "
            ++ ((elim s.instance_name [
              | none ↦ codes "None"
              | some n ↦ codes "'" ++ (n ++ codes "'")
            ])
                ++ (codes "):" ++ decimal i)))))

-- `"%d-%s:%u"`, or `"%d-%s"` for a server with an instance
unfoldable pub fnv1a_key : Server → ℕ → List ℕ
unfolding snprintf_buf decimal
fnv1a_key s i = elim s.instance_name [
  | none ↦ snprintf_buf (decimal i ++ (codes "-" ++ (s.ip ++ (codes ":" ++ decimal s.port))))
  | some n ↦ snprintf_buf (decimal i ++ (codes "-" ++ n))
]
