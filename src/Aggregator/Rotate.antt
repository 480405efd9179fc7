-- ===== src/Aggregator/Rotate.antt =====
-- What a pass of the expiry does to the buckets of an invocation.
use mathlib.Core.Path.{subst}
use mathlib.Core.List.{append_assoc, append-nil}
use carbon_c_relay.Prelude.{
  ℕ, zero, suc, ◌+◌, ◌*◌, ◌≤◌, ◌≡◌, refl, sym, ◌∙◌, ap, Bool, true, false, some, List, [], ◌∷◌,
  ◌++◌, map, if◌then◌else◌, ◌==◌, ltb, length, arith, length-append, length-map, Bool-cases, inl,
  inr, ◌⊎◌,
}
use carbon_c_relay.Aggregator.{Double, Bucket, Compute, Aggregator, a_open, a_expire, is_open}
use carbon_c_relay.Aggregator.Expire.{
  cmp_entry, write_metric, expire_bucket, expire_buckets, last_of, renew, rotate,
}
use carbon_c_relay.Aggregator.Rank.{IsRanked, AllRanked, line, write_metric-line}
use carbon_c_relay.Aggregator.Slots.{IsSpaced}
use carbon_c_relay.Prelude.Int.{ℤ}

one_more : (n : ℕ) → n + 1 ≡ suc n
one_more n = omega arith

starts : (start interval n : ℕ) → start + interval + n * interval ≡ start + suc n * interval
starts start interval n = grind arith

module _ {V : Type 0} where
  abbrev pub mark : Bucket V → Bucket V
  mark b = record b { state = a_expire }

  abbrev pub AllOpen : List (Bucket V) → Type 0
  AllOpen [] = Unit
  AllOpen (b ∷ bs) = (b.state ≡ a_open) × AllOpen bs

  -- buckets that stand ready: open, and with no value
  abbrev pub AllFresh : List (Bucket V) → Type 0
  AllFresh [] = Unit
  AllFresh (b ∷ bs) = (b.state ≡ a_open) × (b.cnt ≡ 0) × AllFresh bs

  -- the number of values in buckets
  abbrev pub pending : List (Bucket V) → ℕ
  pending [] = 0
  pending (b ∷ bs) = b.cnt + pending bs

  pub pending-append : (bs cs : List (Bucket V)) → pending (bs ++ cs) ≡ pending bs + pending cs
  pending-append [] cs = omega arith
  pending-append (b ∷ bs) cs = omega (arith, pending-append bs cs)

  pub pending-fresh : (bs : List (Bucket V)) → AllFresh bs → pending bs ≡ 0
  pending-fresh [] h = refl
  pending-fresh (b ∷ bs) h = omega (arith, h.1, pending-fresh bs h.2)

  abbrev pub is_past : ℕ → ℕ → Bucket V → Bool
  is_past expire now b = ltb (b.start + expire) now

  abbrev pub AllPast : ℕ → ℕ → List (Bucket V) → Type 0
  AllPast expire now [] = Unit
  AllPast expire now (b ∷ bs) = (is_past expire now b ≡ true) × AllPast expire now bs

  -- the first bucket is there, open, and not past
  abbrev pub Ready : ℕ → ℕ → List (Bucket V) → Type 0
  Ready expire now [] = ⊥
  Ready expire now (b ∷ bs) = (b.state ≡ a_open) × (is_past expire now b ≡ false)

  -- some bucket is not past
  abbrev pub HasFuture : ℕ → ℕ → List (Bucket V) → Type 0
  HasFuture expire now [] = ⊥
  HasFuture expire now (b ∷ bs) = (is_past expire now b ≡ false) ⊎ HasFuture expire now bs

  snoc-IsSpaced :
      (interval start : ℕ) (b c : Bucket V) (bs : List (Bucket V))
      → c.start ≡ (last_of b bs).start + interval
      → IsSpaced interval start (b ∷ bs)
      → IsSpaced interval start (b ∷ bs ++ (c ∷ []))
  snoc-IsSpaced interval start b c [] e h = (h.0, (e ∙ ap (λ k. k + interval) h.0, tt))
  snoc-IsSpaced interval start b c (a ∷ bs) e h =
      (h.0, snoc-IsSpaced interval (start + interval) a c bs e h.1)

  -- One round of the loop keeps the buckets spaced.
  round-IsSpaced :
      (interval start : ℕ) (b : Bucket V) (bs : List (Bucket V))
      → IsSpaced interval start (b ∷ bs)
      → IsSpaced interval (start + interval) (bs ++ (renew interval b (last_of b bs) ∷ []))
  unfolding renew
  round-IsSpaced interval start b bs h =
      (snoc-IsSpaced interval start b (renew interval b (last_of b bs)) bs refl h).1

  mark-IsSpaced :
      (interval start : ℕ) (taken kept : List (Bucket V))
      → IsSpaced interval start (taken ++ kept)
      → IsSpaced interval start (map mark taken ++ kept)
  mark-IsSpaced interval start [] kept h = h
  mark-IsSpaced interval start (b ∷ taken) kept h =
      (h.0, mark-IsSpaced interval (start + interval) taken kept h.1)

  -- What the rotation makes of expired buckets `taken` in front of others, `kept`.
  record Rotated (interval start : ℕ) (taken kept out : List (Bucket V)) : Type 0 where
    fresh : List (Bucket V)
    result : out ≡ kept ++ fresh
    as_many : length fresh ≡ length taken
    ready : AllFresh fresh
    spaced : IsSpaced interval (start + length taken * interval) out

  rotate-kept :
      (interval expire now fuel : ℕ) (kept : List (Bucket V))
      → Ready expire now kept
      → rotate interval fuel kept ≡ kept
  unfolding rotate
  rotate-kept interval expire now zero kept h = refl
  rotate-kept interval expire now (suc fuel) [] h = refl
  rotate-kept interval expire now (suc fuel) (b ∷ bs) h = rw h.0 refl

  Ready-append :
      (expire now : ℕ) (bs cs : List (Bucket V)) → Ready expire now bs → Ready expire now (bs ++ cs)
  Ready-append expire now [] cs h = elim h [ ]
  Ready-append expire now (b ∷ bs) cs h = h

  later :
      (interval start : ℕ) (b : Bucket V) (taken kept : List (Bucket V)) (n : Bucket V)
      {out : List (Bucket V)}
      → n.state ≡ a_open
      → n.cnt ≡ 0
      → Rotated interval (start + interval) taken (kept ++ (n ∷ [])) out
      → Rotated interval start (b ∷ taken) kept out
  later interval start b taken kept n {out} o z h = record {
    fresh = n ∷ h.fresh;
    result = h.result ∙ append_assoc kept (n ∷ []) h.fresh;
    as_many = ap suc h.as_many;
    ready = (o, z, h.ready);
    spaced = subst (λ k. IsSpaced interval k out) (starts start interval (length taken)) h.spaced;
  }

  rotate-Rotated :
      (interval start expire now fuel : ℕ) (taken kept : List (Bucket V))
      → Ready expire now kept
      → length taken ≤ fuel
      → IsSpaced interval start (map mark taken ++ kept)
      → Rotated interval start taken kept (rotate interval fuel (map mark taken ++ kept))
  unfolding rotate renew
  rotate-Rotated interval start expire now fuel [] kept r f h =
      rw (rotate-kept interval expire now fuel kept r) (record {
        fresh = [];
        result = sym (append-nil kept);
        as_many = refl;
        ready = tt;
        spaced = subst (λ k. IsSpaced interval k kept) (omega arith) h;
      })
  rotate-Rotated interval start expire now zero (b ∷ taken) kept r f h = absurd (omega arith)
  rotate-Rotated interval start expire now (suc fuel) (b ∷ taken) kept r f h =
      let n = renew interval (mark b) (last_of (mark b) (map mark taken ++ kept)) in
      rw (append_assoc (map mark taken) kept (n ∷ [])) (
        later interval start b taken kept n refl refl (
          rotate-Rotated interval (start + interval) expire now fuel taken (kept ++ (n ∷ []))
            (Ready-append expire now kept (n ∷ []) r) (omega arith)
            (subst (IsSpaced interval (start + interval))
              (append_assoc (map mark taken) kept (n ∷ []))
              (round-IsSpaced interval start (mark b) (map mark taken ++ kept) h))))

module _ {V : Type 0} (d : Double V) (qsort : (V → V → ℤ) → List V → List V) (print : V → List ℕ)
    (write : List ℕ → Bool) (s : Aggregator V) (c : Compute V) (name : List ℕ) where
  -- the lines of buckets, one for each that has a value
  abbrev pub lines_of : List (Bucket V) → List (List ℕ)
  lines_of [] = []
  lines_of (b ∷ bs) =
      if b.cnt == 0 then lines_of bs else line d qsort print write s c name (mark b) ∷ lines_of bs

  record Walked (expire now : ℕ) (bs : List (Bucket V)) : Type 0 where
    taken : List (Bucket V)
    kept : List (Bucket V)
    split : bs ≡ taken ++ kept
    past : AllPast expire now taken
    ready : Ready expire now kept
    result :
        expire_buckets d qsort print write s c name expire now bs
        ≡ some (map mark taken ++ kept, (lines_of taken, length taken))

  -- One pass over the buckets `bs` of an invocation.
  pub record Expired (interval start expire now : ℕ) (bs : List (Bucket V)) : Type 0 where
    -- the buckets that are sent, those that stay, and those made ready behind them
    pub taken : List (Bucket V)
    pub kept : List (Bucket V)
    pub fresh : List (Bucket V)
    -- what lies between the two halves of the pass
    pub marked : List (Bucket V)
    pub split : bs ≡ taken ++ kept
    pub past : AllPast expire now taken
    pub sent :
        expire_buckets d qsort print write s c name expire now bs
        ≡ some (marked, (lines_of taken, length taken))
    pub moved : rotate interval (length marked) marked ≡ kept ++ fresh
    pub as_many : length fresh ≡ length taken
    pub ready : AllFresh fresh
    pub spaced : IsSpaced interval (start + length taken * interval) (kept ++ fresh)
    pub next : Ready expire now (kept ++ fresh)
    pub conserved : pending bs ≡ pending taken + pending (kept ++ fresh)

module _ {V : Type 0} (d : Double V) (qsort : (V → V → ℤ) → List V → List V) (print : V → List ℕ)
    (write : List ℕ → Bool) (s : Aggregator V) (c : Compute V) (name : List ℕ)
    (keeps_length : (vs : List V) → length (qsort (cmp_entry d) vs) ≡ length vs) where
  one_bucket :
      (b : Bucket V) (taken kept : List (Bucket V))
      → b.state ≡ a_open
      → ((b.cnt == 0) ≡ false → IsRanked d c.type c.percentile b.cnt)
      → expire_bucket d qsort print write s c name b
          (map mark taken ++ kept, (lines_of d qsort print write s c name taken, length taken))
        ≡ some (
          map mark (b ∷ taken) ++ kept,
          (lines_of d qsort print write s c name (b ∷ taken), length (b ∷ taken)),
        )
  unfolding expire_bucket
  one_bucket b taken kept o h = elim (Bool-cases (b.cnt == 0)) [
    | inl empty ↦ rw (expire_bucket, ap is_open o, empty, one_more) refl
    | inr full ↦ rw (expire_bucket, ap is_open o, full, written (h full), one_more) refl
  ]
    where
      written :
          IsRanked d c.type c.percentile b.cnt
          → write_metric d qsort print write s c name (mark b)
            ≡ some (line d qsort print write s c name (mark b))
      written k = write_metric-line d qsort keeps_length print write s c name (mark b) k

  expire_buckets-Walked :
      (expire now : ℕ) (bs : List (Bucket V))
      → AllOpen bs
      → HasFuture expire now bs
      → AllRanked d c.type c.percentile bs
      → Walked d qsort print write s c name expire now bs
  unfolding expire_buckets
  expire_buckets-Walked expire now [] o h k = elim h [ ]
  expire_buckets-Walked expire now (b ∷ bs) o h k = elim (Bool-cases (is_past expire now b)) [
    | inr not_past ↦ record {
      taken = [];
      kept = b ∷ bs;
      split = refl;
      past = tt;
      ready = (o.0, not_past);
      result = rw (expire_buckets, not_past) refl;
    }
    | inl gone ↦
        (let rest = expire_buckets-Walked expire now bs o.1 (later_future h gone) k.1 in
          record {
            taken = b ∷ rest.taken;
            kept = rest.kept;
            split = ap (λ l. b ∷ l) rest.split;
            past = (gone, rest.past);
            ready = rest.ready;
            result =
                rw (expire_buckets, gone, rest.result) (one_bucket b rest.taken rest.kept o.0 k.0);
          })
  ]
    where
      later_future :
          HasFuture expire now (b ∷ bs) → is_past expire now b ≡ true → HasFuture expire now bs
      later_future (inl f) p = cc
      later_future (inr f) p = f

  -- For a qsort that keeps the number of values, and open buckets that follow each other by the interval,
  -- of which some is not past, where, for a median or a percentile, the rank of each bucket with values is
  -- between 1 and their number: a pass sends one line, that of write_metric, for each bucket in front
  -- that is past and has a value, in order, and puts as many empty buckets behind the others. The buckets
  -- still follow each other; the first is not past, so the next pass at this time has nothing to do; and
  -- every value is in a bucket that was sent or in one that stays.
  pub expire_buckets-Expired :
      (interval start expire now : ℕ) (bs : List (Bucket V))
      → AllOpen bs
      → IsSpaced interval start bs
      → HasFuture expire now bs
      → AllRanked d c.type c.percentile bs
      → Expired d qsort print write s c name interval start expire now bs
  expire_buckets-Expired interval start expire now bs o sp f k =
      let walk = expire_buckets-Walked expire now bs o f k in
      let marked = map mark walk.taken ++ walk.kept in
      let turn =
        rotate-Rotated interval start expire now (length marked) walk.taken walk.kept walk.ready
          (omega (arith, length-append (map mark walk.taken) walk.kept, length-map walk.taken mark))
          (mark-IsSpaced interval start walk.taken walk.kept
            (subst (IsSpaced interval start) walk.split sp)) in
      record {
        taken = walk.taken;
        kept = walk.kept;
        fresh = turn.fresh;
        marked = marked;
        split = walk.split;
        past = walk.past;
        sent = walk.result;
        moved = turn.result;
        as_many = turn.as_many;
        ready = turn.ready;
        spaced =
            subst (IsSpaced interval (start + length walk.taken * interval)) turn.result
              turn.spaced;
        next = Ready-append expire now walk.kept turn.fresh walk.ready;
        conserved =
            ap pending walk.split
            ∙ omega (
              arith,
              pending-append walk.taken walk.kept,
              pending-append walk.kept turn.fresh,
              pending-fresh turn.fresh turn.ready,
            );
      }
