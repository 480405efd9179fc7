-- ===== src/Aggregator.antt =====
-- aggregator.c: metrics are put in buckets by name and time, and what a bucket holds is computed and
-- sent when its time is past. Each function works under the locks that the code takes, as one step.
-- Doubles are a type `V` with the operations that the code uses.
pub mod Expire
pub mod Rank
pub mod Values
pub mod Slots
pub mod Rotate
pub mod Counters
mod Tests
use Prim.Native.Nat.{bit_xor}
use carbon_c_relay.Prelude.{
  ℕ, zero, suc, ◌+◌, ◌-◌, ◌*◌, ◌/◌, ◌%◌, ◌^◌, Bool, true, false, not, ◌&&◌, ◌||◌, Option, none,
  some, List, [], ◌∷◌, ◌++◌, if◌then◌else◌, ◌==◌, ltb, leb, length, take, drop, get_elem?, set,
}
use carbon_c_relay.Prelude.Bytes.{str_eq, strchr}
use carbon_c_relay.Prelude.Int.{ℤ, pos, negsuc, ◌-ℤ◌}
use carbon_c_relay.Hash.{fnv1a_32}
use carbon_c_relay.Router.{RegMatch}
use carbon_c_relay.Router.Rewrite.{router_rewrite_metric}

-- What the code does with a `double`; `rank p n` is the integer part of p / 100.0 * n + 0.9.
pub record Double (V : Type 0) : Type 0 where
  pub of_nat : ℕ → V
  pub add : V → V → V
  pub sub : V → V → V
  pub div : V → V → V
  pub pow2 : V → V
  pub sqrt : V → V
  pub lt : V → V → Bool
  pub rank : ℕ → ℕ → ℕ
  pub to_int : V → ℤ

-- `_aggr_timestamp`
pub data Timestamp : Type 0 where
  ts_start ts_middle ts_end : Timestamp

-- `_aggr_compute_type`
pub data ComputeType : Type 0 where
  sum cnt max min avg medn pctl var sdev : ComputeType

pub data BucketState : Type 0 where
  a_open a_expire : BucketState

-- `_aggr_bucket`; the array of the entries is a function of the index, of which `size` cells may be
-- used.
pub record Bucket (V : Type 0) : Type 0 where
  pub state : BucketState
  pub start : ℕ
  pub cnt : ℕ
  pub sum : V
  pub max : V
  pub min : V
  pub size : ℕ
  pub values : ℕ → V

-- `_aggr_invocations`
pub record Invocation (V : Type 0) : Type 0 where
  pub metric : List ℕ
  pub hash : ℕ
  pub expire : ℕ
  pub buckets : List (Bucket V)

-- `_aggr_computes`
pub record Compute (V : Type 0) : Type 0 where
  pub type : ComputeType
  pub metric : List ℕ
  pub invocations_ht : ℕ → List (Invocation V)
  pub entries_needed : Bool
  pub percentile : ℕ

-- `struct _aggregator`
pub record Aggregator (V : Type 0) : Type 0 where
  pub interval : ℕ
  pub expire : ℕ
  pub tswhen : Timestamp
  pub bucketcnt : ℕ
  pub received : ℕ
  pub sent : ℕ
  pub dropped : ℕ
  pub computes : List (Compute V)

-- What a round of the loop over the computes takes from elsewhere: the clock, the next random
-- number, whether memory is granted for a new invocation, and for more entries; and what lies in
-- the new memory.
pub record Draw (V : Type 0) : Type 0 where
  pub now : ℕ
  pub random : ℕ
  pub granted : Bool
  pub regrown : Bool
  pub blank : V

abbrev pub aggr_ht_size : ℕ
aggr_ht_size = 4096

-- An `unsigned char`, from two of type `unsigned int`.
unfoldable pub bucket_count : ℕ → ℕ → ℕ
bucket_count interval expire = ((expire + (interval - 1)) % 2 ^ 32 / interval + 1 + 1) % 2 ^ 8

abbrev pub needs_entries : ComputeType → Bool
needs_entries medn = true
needs_entries pctl = true
needs_entries var = true
needs_entries sdev = true
needs_entries _ = false

abbrev pub percentile_of : ComputeType → ℕ → ℕ
percentile_of medn p = 50
percentile_of _ p = p

module _ {V : Type 0} where
  -- `aggregator_new`; `connected` says whether memory, the pipe and its connection are had. The code
  -- asserts that 0 < interval < expire. The fields are of type `unsigned short`.
  unfoldable pub aggregator_new : Bool → ℕ → ℕ → Timestamp → Option (Aggregator V)
  unfolding bucket_count
  aggregator_new connected interval expire tswhen =
      if connected && (not (interval == 0) && ltb interval expire)
      then some (record {
        interval = interval % 2 ^ 16;
        expire = expire % 2 ^ 16;
        tswhen = tswhen;
        bucketcnt = bucket_count interval expire;
        received = 0;
        sent = 0;
        dropped = 0;
        computes = [];
      })
      else none

  -- `aggregator_add_compute`, where memory is had; `percentile` has 7 bits
  unfoldable pub aggregator_add_compute : Aggregator V → List ℕ → ComputeType → ℕ → Aggregator V
  aggregator_add_compute s metric act percentile = record s {
    computes =
        s.computes
        ++ (record {
          type = act;
          metric = metric;
          invocations_ht = λ i. [];
          entries_needed = needs_entries act;
          percentile = percentile_of act percentile % 2 ^ 7;
        }
            ∷ []);
  }

  -- `aggregator_set_stub`, with the buffer of METRIC_BUFSIZ bytes
  unfoldable pub set_stub : List ℕ → List (Compute V) → List (Compute V)
  set_stub stubname [] = []
  set_stub stubname (c ∷ cs) =
      record c { metric = take 32767 (stubname ++ c.metric) } ∷ set_stub stubname cs

  unfoldable pub aggregator_set_stub : Aggregator V → List ℕ → Aggregator V
  unfolding set_stub
  aggregator_set_stub s stubname = record s { computes = set_stub stubname s.computes }

-- the slot of a hash
unfoldable pub ht_bucket : ℕ → ℕ
ht_bucket hash = bit_xor (hash / 4096) hash % 4096

abbrev pub is_open : BucketState → Bool
is_open a_open = true
is_open a_expire = false

module _ {V : Type 0} where
  -- A new invocation's buckets: `n` of them from the time `start` on.
  unfoldable pub new_buckets : ℕ → ℕ → ℕ → V → List (Bucket V)
  new_buckets zero start interval blank = []
  new_buckets (suc n) start interval blank =
      record {
        state = a_open;
        start = start;
        cnt = 0;
        sum = blank;
        max = blank;
        min = blank;
        size = 0;
        values = λ i. blank;
      }
      ∷ new_buckets n (start + interval) interval blank

  -- Buckets begin in the past, at a multiple of the interval.
  unfoldable pub new_invocation : Aggregator V → Draw V → List ℕ → ℕ → Invocation V
  unfolding new_buckets
  new_invocation s w name hash = record {
    metric = name;
    hash = hash;
    expire = (s.expire + w.random % s.interval) % 2 ^ 16;
    buckets =
        new_buckets s.bucketcnt ((w.now - s.expire) / s.interval * s.interval) s.interval w.blank;
  }

  -- The chain of a slot, parted at the invocation of the name.
  unfoldable pub locate :
      List (Invocation V)
      → List ℕ
      → ℕ
      → Option (List (Invocation V) × (Invocation V × List (Invocation V)))
  unfolding str_eq
  locate [] name hash = none
  locate (inv ∷ chain) name hash =
      let rest = locate chain name hash in
      if (inv.hash == hash) && str_eq name inv.metric
      then some ([], (inv, chain))
      else (elim rest [ none ↦ none | some (before, found) ↦ some (inv ∷ before, found) ])

  -- a compute with another chain in a slot
  abbrev pub with_chain : Compute V → ℕ → List (Invocation V) → Compute V
  with_chain c slot chain = record c {
    invocations_ht = λ i. if i == slot then chain else c.invocations_ht i;
  }

  -- the room for entries behind the test for more
  abbrev pub grown : Bool → Bucket V → ℕ
  grown regrown b = if (b.cnt == b.size) && regrown then b.size + 64 else b.size

  -- The name that a compute gives the metric: its template, or the template rewritten.
  unfoldable pub output_name : Compute V → List ℕ → ℕ → ℕ → List RegMatch → Option (List ℕ)
  unfolding router_rewrite_metric
  output_name c metric firstspace nmatch pmatch =
      if nmatch == 0
      then some c.metric
      else (elim (router_rewrite_metric metric firstspace c.metric nmatch pmatch) [
        | none ↦ none
        | some (line, k) ↦ some (take k line)
      ])

module _ {V : Type 0} (d : Double V) where
  -- The modification of a bucket, under its lock.
  unfoldable pub add_value : Bool → Bool → V → Bucket V → Bucket V
  add_value needed regrown val b =
      let size' = if needed then grown regrown b else b.size in
      record b {
        sum = if b.cnt == 0 then val else d.add b.sum val;
        max = if (b.cnt == 0) || d.lt b.max val then val else b.max;
        min = if (b.cnt == 0) || d.lt val b.min then val else b.min;
        size = size';
        values =
            if needed && ltb b.cnt size'
            then (λ i. if i == b.cnt then val else b.values i)
            else b.values;
        cnt = b.cnt + 1;
      }

  -- The value goes to the bucket of its time; `none` says that it is dropped.
  unfoldable pub put_value :
      Aggregator V → Bool → Bool → V → ℤ → Invocation V → Option (Invocation V)
  unfolding add_value ◌-ℤ◌
  put_value s needed regrown val epoch inv = elim (get_elem? inv.buckets 0) [
    | none ↦ none
    | some b0 ↦ elim (epoch -ℤ pos b0.start) [
      | negsuc n ↦ none
      | pos itime ↦
          if ltb itime (s.bucketcnt * s.interval)
          then (elim (get_elem? inv.buckets (itime / s.interval)) [
            | none ↦ none
            | some b ↦
                if is_open b.state
                then some (record inv {
                  buckets = set inv.buckets (itime / s.interval) (add_value needed regrown val b);
                })
                else none
          ])
          else none
    ]
  ]

  -- what one compute leaves, and whether the value was dropped
  unfoldable pub put_located :
      Aggregator V
      → Draw V
      → V
      → ℤ
      → Compute V
      → ℕ
      → List (Invocation V) × (Invocation V × List (Invocation V))
      → Compute V × Bool
  unfolding put_value
  put_located s w val epoch c slot (before, (inv, behind)) =
      elim (put_value s c.entries_needed w.regrown val epoch inv) [
        | none ↦ (with_chain c slot (before ++ (inv ∷ behind)), true)
        | some inv' ↦ (with_chain c slot (before ++ (inv' ∷ behind)), false)
      ]

  -- The invocation of the name is looked for, and made if there is none. The bytes of a name are below
  -- 128, so that a `char` is not negative in the hash.
  unfoldable pub put_named : Aggregator V → Draw V → V → ℤ → Compute V → List ℕ → Compute V × Bool
  unfolding put_located locate new_invocation ht_bucket fnv1a_32
  put_named s w val epoch c name =
      let hash = fnv1a_32 name in
      let slot = ht_bucket hash in
      let chain = c.invocations_ht slot in
      elim (locate chain name hash) [
        | some found ↦ put_located s w val epoch c slot found
        | none ↦
            if w.granted
            then put_located s w val epoch c slot ([], (new_invocation s w name hash, chain))
            else (c, false)
      ]

  -- the loop over the computes, with the number of values dropped
  unfoldable pub put_computes :
      Aggregator V
      → (ℕ → Draw V)
      → V
      → ℤ
      → List ℕ
      → ℕ
      → ℕ
      → List RegMatch
      → ℕ
      → List (Compute V)
      → List (Compute V) × ℕ
  unfolding output_name put_named
  put_computes s draw val epoch metric n nmatch pmatch i [] = ([], 0)
  put_computes s draw val epoch metric n nmatch pmatch i (c ∷ cs) =
      let (cs', k) = put_computes s draw val epoch metric n nmatch pmatch (i + 1) cs in
      elim (output_name c metric n nmatch pmatch) [
        | none ↦ (c ∷ cs', k)
        | some name ↦
            (let (c', is_dropped) = put_named s (draw i) val epoch c name in
              (c' ∷ cs', if is_dropped then k + 1 else k))
      ]

  -- `aggregator_putmetric`; `atof` and `atoll` read the value and the time
  unfoldable pub aggregator_putmetric :
      (List ℕ → V)
      → (List ℕ → ℤ)
      → Bool
      → (ℕ → Draw V)
      → Aggregator V
      → List ℕ
      → ℕ
      → ℕ
      → List RegMatch
      → Aggregator V
  unfolding put_computes strchr
  aggregator_putmetric atof atoll keep_running draw s metric n nmatch pmatch =
      let data' = drop (n + 1) metric in
      elim (strchr data' b' ') [
        | none ↦ s
        | some v ↦
            if keep_running
            then (let (cs, k) =
                  put_computes s draw (atof data') (atoll (drop (v + 1) data')) metric n nmatch
                    pmatch 0 s.computes in
                record s {
                  computes = cs;
                  received = (s.received + 1) % 2 ^ 64;
                  dropped = (s.dropped + k) % 2 ^ 64;
                })
            else s
      ]
