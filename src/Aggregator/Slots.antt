-- ===== src/Aggregator/Slots.antt =====
-- Which bucket a value goes to.
use mathlib.Core.Path.{subst}
use native.Mathlib.Nat.{div-mul-le_self, lt-div-mul-add, div-lt_iff_lt-mul}
use carbon_c_relay.Prelude.{
  ℕ, zero, suc, ◌+◌, ◌-◌, ◌*◌, ◌/◌, ◌%◌, ◌^◌, ◌≤◌, ◌<◌, ◌≡◌, refl, ◌∙◌, ap, Bool, true, false,
  Option, none, some, List, [], ◌∷◌, if◌then◌else◌, ltb, length, get_elem?, set, arith, length-set,
  Bool-cases, inl, inr, ◌⊎◌, ltb→lt, leb,
}
use carbon_c_relay.Prelude.Int.{pos, negsuc, ◌-ℤ◌}
use carbon_c_relay.Aggregator.{
  Double, Bucket, Invocation, Aggregator, Draw, BucketState, a_open, a_expire, is_open,
  bucket_count, new_buckets, new_invocation, add_value, put_value,
}

open_of : (st : BucketState) → is_open st ≡ true → st ≡ a_open
open_of a_open h = refl
open_of a_expire h = cc

expire_of : (st : BucketState) → is_open st ≡ false → st ≡ a_expire
expire_of a_open h = cc
expire_of a_expire h = refl

-- a difference of two times
time-diff :
    (e s : ℕ)
    → ((e < s) × (pos e -ℤ pos s ≡ negsuc (s - e - 1))) ⊎ ((s ≤ e) × (pos e -ℤ pos s ≡ pos (e - s)))
unfolding ◌-ℤ◌
time-diff e s = elim (Bool-cases (leb (0 + s) (e + 0))) [
  | inl le ↦ inr (ground (arith, le), rw le (ap pos (omega arith)))
  | inr gt ↦ inl (ground (arith, gt), rw gt (ap negsuc (omega arith)))
]

module _ {V : Type 0} where
  -- Buckets follow each other by the interval, the first at the time `start`.
  abbrev pub IsSpaced : ℕ → ℕ → List (Bucket V) → Type 0
  IsSpaced interval start [] = Unit
  IsSpaced interval start (b ∷ bs) = (b.start ≡ start) × IsSpaced interval (start + interval) bs

  pub get_elem?-start :
      (interval start : ℕ) (bs : List (Bucket V)) (i : ℕ)
      → IsSpaced interval start bs
      → i < length bs
      → (b : Bucket V) × (get_elem? bs i ≡ some b) × (b.start ≡ start + i * interval)
  get_elem?-start interval start [] i h l = absurd (omega arith)
  get_elem?-start interval start (b ∷ bs) zero h l = (b, refl, omega (arith, h.0))
  get_elem?-start interval start (b ∷ bs) (suc i) h l =
      let (c, at, e) = get_elem?-start interval (start + interval) bs i h.1 (omega arith) in
      (c, at, grind (arith, e))

  pub new_buckets-IsSpaced :
      (n start interval : ℕ) (blank : V)
      → IsSpaced interval start (new_buckets n start interval blank)
  unfolding new_buckets
  new_buckets-IsSpaced zero start interval blank = tt
  new_buckets-IsSpaced (suc n) start interval blank =
      (refl, new_buckets-IsSpaced n (start + interval) interval blank)

  pub length-new_buckets :
      (n start interval : ℕ) (blank : V) → length (new_buckets n start interval blank) ≡ n
  unfolding new_buckets
  length-new_buckets zero start interval blank = refl
  length-new_buckets (suc n) start interval blank =
      ap suc (length-new_buckets n (start + interval) interval blank)

  set-IsSpaced :
      (interval start : ℕ) (bs : List (Bucket V)) (i : ℕ) (b c : Bucket V)
      → get_elem? bs i ≡ some b
      → c.start ≡ b.start
      → IsSpaced interval start bs
      → IsSpaced interval start (set bs i c)
  set-IsSpaced interval start [] i b c at e h = tt
  set-IsSpaced interval start (a ∷ bs) zero b c at e h = (cc, h.1)
  set-IsSpaced interval start (a ∷ bs) (suc i) b c at e h =
      (h.0, set-IsSpaced interval (start + interval) bs i b c at e h.1)

-- The invariant of an invocation's buckets.
pub record IsTimed {V : Type 0} (s : Aggregator V) (start : ℕ) (inv : Invocation V) : Type 0 where
  pub spaced : IsSpaced s.interval start inv.buckets
  pub all_there : length inv.buckets ≡ s.bucketcnt

module _ {V : Type 0} (d : Double V) where
  start-add_value :
      (needed regrown : Bool) (val : V) (b : Bucket V)
      → (add_value d needed regrown val b).start ≡ b.start
  unfolding add_value
  start-add_value needed regrown val b = refl

  -- What becomes of a value for the time `epoch`: it goes to the open bucket whose interval holds
  -- that time; or it is dropped, because the time lies before the first bucket or behind the last, or
  -- in a bucket that is being sent.
  pub data Placed (s : Aggregator V) (start : ℕ) (needed regrown : Bool) (val : V)
      (inv : Invocation V) : ℕ → Option (Invocation V) → Type 0 where
    early : {epoch : ℕ} → epoch < start → Placed s start needed regrown val inv epoch none
    late :
        {epoch : ℕ}
        → start + s.bucketcnt * s.interval ≤ epoch
        → Placed s start needed regrown val inv epoch none
    closed :
        {epoch : ℕ} (i : ℕ) (b : Bucket V)
        → get_elem? inv.buckets i ≡ some b
        → b.state ≡ a_expire
        → b.start ≤ epoch
        → epoch < b.start + s.interval
        → Placed s start needed regrown val inv epoch none
    kept :
        {epoch : ℕ} (i : ℕ) (b : Bucket V)
        → get_elem? inv.buckets i ≡ some b
        → b.state ≡ a_open
        → b.start ≤ epoch
        → epoch < b.start + s.interval
        → Placed s start needed regrown val inv epoch
            (some (record inv { buckets = set inv.buckets i (add_value d needed regrown val b) }))

  put_at :
      (s : Aggregator V) (start : ℕ) (needed regrown : Bool) (val : V) (inv : Invocation V)
      (epoch i : ℕ) (b : Bucket V)
      → get_elem? inv.buckets i ≡ some b
      → b.start ≤ epoch
      → epoch < b.start + s.interval
      → Placed s start needed regrown val inv epoch (
          if is_open b.state
          then some (record inv { buckets = set inv.buckets i (add_value d needed regrown val b) })
          else none)
  put_at s start needed regrown val inv epoch i b at from to = elim (Bool-cases (is_open b.state)) [
    | inl yes_open ↦ rw yes_open (kept i b at (open_of b.state yes_open) from to)
    | inr not_open ↦ rw not_open (closed i b at (expire_of b.state not_open) from to)
  ]

  -- For an invocation with spaced buckets, an interval and a number of buckets above 0, a value for the
  -- time `epoch`, not negative, is kept in the open bucket whose interval holds that time, and no other
  -- bucket changes; or it is dropped, because the time lies before the first bucket, behind the last,
  -- or in a bucket that is being sent.
  pub put_value-Placed :
      (s : Aggregator V) (start : ℕ) (needed regrown : Bool) (val : V) (epoch : ℕ)
      (inv : Invocation V)
      → IsTimed s start inv
      → 0 < s.interval
      → 0 < s.bucketcnt
      → Placed s start needed regrown val inv epoch
          (put_value d s needed regrown val (pos epoch) inv)
  unfolding put_value ◌-ℤ◌
  put_value-Placed s start needed regrown val epoch inv t pi pb =
      let (b0, at0, e0) =
        get_elem?-start s.interval start inv.buckets 0 t.spaced (omega (arith, t.all_there)) in
      rw (put_value, at0)
        (elim (time-diff epoch b0.start) [
          | inl (before, diff) ↦ rw diff (early (omega (arith, e0)))
          | inr (behind, diff) ↦
              rw diff (elim (Bool-cases (ltb (epoch - b0.start) (s.bucketcnt * s.interval))) [
                | inr far ↦ rw far (late (ground (arith, far, e0)))
                | inl near ↦ rw near (
                    let i = (epoch - b0.start) / s.interval in
                    let (b, at, e) =
                      get_elem?-start s.interval start inv.buckets i t.spaced
                        (omega (arith, t.all_there, (div-lt_iff_lt-mul pi).1 (ltb→lt _ _ near))) in
                    rw at (
                      put_at s start needed regrown val inv epoch i b at
                        (omega (arith, e, e0, div-mul-le_self (epoch - b0.start) s.interval))
                        (omega (arith, e, e0, lt-div-mul-add {a = epoch - b0.start} pi))))
              ])
        ])

  abbrev pub IsKept : Aggregator V → ℕ → Option (Invocation V) → Type 0
  IsKept s start none = Unit
  IsKept s start (some inv) = IsTimed s start inv

  -- What is kept stays in place.
  pub Placed-IsKept :
      {s : Aggregator V} {start epoch : ℕ} {needed regrown : Bool} {val : V} {inv : Invocation V}
      {o : Option (Invocation V)}
      → IsTimed s start inv
      → Placed s start needed regrown val inv epoch o
      → IsKept s start o
  Placed-IsKept t (early h) = tt
  Placed-IsKept t (late h) = tt
  Placed-IsKept t (closed i b at st from to) = tt
  Placed-IsKept {s} {start} {epoch} {needed} {regrown} {val} {inv} t (kept i b at st from to) =
      record {
        spaced =
            set-IsSpaced s.interval start inv.buckets i b (add_value d needed regrown val b) at
              (start-add_value needed regrown val b) t.spaced;
        all_there = length-set inv.buckets i (add_value d needed regrown val b) ∙ t.all_there;
      }

  state-new_buckets :
      (n start interval : ℕ) (blank : V) (i : ℕ) (b : Bucket V)
      → get_elem? (new_buckets n start interval blank) i ≡ some b
      → b.state ≡ a_open
  unfolding new_buckets
  state-new_buckets zero start interval blank i b h = cc
  state-new_buckets (suc n) start interval blank zero b h = cc
  state-new_buckets (suc n) start interval blank (suc i) b h =
      state-new_buckets n (start + interval) interval blank i b h

  -- the time that the buckets of a new invocation begin at
  abbrev pub first_start : Aggregator V → ℕ → ℕ
  first_start s now = (now - s.expire) / s.interval * s.interval

  new_invocation-IsTimed :
      (s : Aggregator V) (w : Draw V) (name : List ℕ) (hash : ℕ)
      → IsTimed s (first_start s w.now) (new_invocation s w name hash)
  unfolding new_invocation
  new_invocation-IsTimed s w name hash = record {
    spaced = new_buckets-IsSpaced s.bucketcnt (first_start s w.now) s.interval w.blank;
    all_there = length-new_buckets s.bucketcnt (first_start s w.now) s.interval w.blank;
  }

  as_meant :
      (i expire : ℕ)
      → i < 2 ^ 16
      → expire < 2 ^ 16
      → (expire + (i - 1)) / i + 2 < 2 ^ 8
      → bucket_count i expire ≡ (expire + (i - 1)) / i + 1 + 1
  unfolding bucket_count
  as_meant i expire short short' fits =
      let whole : (expire + (i - 1)) % 2 ^ 32 ≡ expire + (i - 1) = omega arith in
      rw whole (omega arith)

  reaches :
      (now expire i : ℕ)
      → 0 < i
      → expire ≤ now
      → now < (now - expire) / i * i + ((expire + (i - 1)) / i + 1 + 1) * i
  reaches now expire i p le =
      grind (arith, lt-div-mul-add {a = now - expire} p, lt-div-mul-add {a = expire + (i - 1)} p)

  accepted :
      (s : Aggregator V) (w : Draw V) (name : List ℕ) (hash epoch : ℕ) (needed : Bool) (val : V)
      (o : Option (Invocation V))
      → 0 < s.interval
      → s.bucketcnt ≡ (s.expire + (s.interval - 1)) / s.interval + 1 + 1
      → s.expire ≤ w.now
      → w.now - s.expire ≤ epoch
      → epoch ≤ w.now
      → Placed s (first_start s w.now) needed w.regrown val (new_invocation s w name hash) epoch o
      → (inv : Invocation V) × (o ≡ some inv)
  unfolding new_invocation
  accepted s w name hash epoch needed val o p c le from to (early h) =
      absurd (omega (arith, div-mul-le_self (w.now - s.expire) s.interval))
  accepted s w name hash epoch needed val o p c le from to (late h) =
      absurd (omega (arith, reaches w.now s.expire s.interval p le, ap (λ k. k * s.interval) c))
  accepted s w name hash epoch needed val o p c le from to (closed i b at st f t) =
      absurd (cc (state-new_buckets s.bucketcnt (first_start s w.now) s.interval w.blank i b at))
  accepted s w name hash epoch needed val o p c le from to (kept i b at st f t) = (_, refl)

  -- If the interval is above 0 and with the expiry below 2^16, the buckets are as many as
  -- `aggregator_new` makes, and that number fits its byte, then a new invocation keeps a value for any time from `expire` seconds ago till now, and
  -- its buckets stay in place.
  pub new_invocation-accepts :
      (s : Aggregator V) (w : Draw V) (name : List ℕ) (hash epoch : ℕ) (needed : Bool) (val : V)
      → 0 < s.interval
      → s.interval < 2 ^ 16
      → s.expire < 2 ^ 16
      → s.bucketcnt ≡ bucket_count s.interval s.expire
      → (s.expire + (s.interval - 1)) / s.interval + 2 < 2 ^ 8
      → s.expire ≤ w.now
      → w.now - s.expire ≤ epoch
      → epoch ≤ w.now
      → (inv : Invocation V) × (put_value d s needed w.regrown val
            (pos epoch)
            (new_invocation s w name hash)
          ≡ some inv)
        × IsTimed s (first_start s w.now) inv
  new_invocation-accepts s w name hash epoch needed val p short short' c fits le from to =
      let fresh = new_invocation s w name hash in
      let cs = c ∙ as_meant s.interval s.expire short short' fits in
      let timed = new_invocation-IsTimed s w name hash in
      let placed =
        put_value-Placed s (first_start s w.now) needed w.regrown val epoch fresh timed p
          (omega (arith, cs)) in
      let (inv, e) =
        accepted s w name hash epoch needed val
          (put_value d s needed w.regrown val (pos epoch) fresh) p cs le from to placed in
      (inv, e, kept_timed timed placed e)
    where
      kept_timed :
          {o : Option (Invocation V)} {inv : Invocation V}
          → IsTimed s (first_start s w.now) (new_invocation s w name hash)
          → Placed s
              (first_start s w.now)
              needed
              w.regrown
              val
              (new_invocation s w name hash)
              epoch
              o
          → o ≡ some inv
          → IsTimed s (first_start s w.now) inv
      kept_timed timed placed e =
          subst (IsKept s (first_start s w.now)) e (Placed-IsKept timed placed)
