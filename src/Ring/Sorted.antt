-- ===== src/Ring/Sorted.antt =====
-- `ch_addnode`: the completed ring is in order of position, and entries at one position name one
-- server; so the entry that the binary search hits stands for the first one.
use Prim.Native.Nat.{Ordering}
use carbon_c_relay.Prelude.{
  ℕ, ◌≤◌, ◌≡◌, refl, ◌∙◌, ap, ◌≢◌, ◌⊎◌, inl, inr, List, [], ◌∷◌, ◌++◌, map, arith, length,
  Bool-cases, if◌then◌else◌, ◌==◌, ==_iff,
}
use carbon_c_relay.Prelude.Int.{ℤ}
use carbon_c_relay.Server.{Server}
use carbon_c_relay.Ring.{
  Entry, ChRing, ChType, carbon, fnv1a, jump_fnv1a, entrycmp_carbon, entrycmp_fnv1a,
}
use carbon_c_relay.Ring.Build.{comparator, new_entries, overwrite_duplicates, ch_addnode}

-- What qsort promises of one list: no entry stands before one that compares below it.
abbrev pub IsSortedBy : (Entry → Entry → Ordering) → List Entry → Type 0
IsSortedBy cmp [] = Unit
IsSortedBy cmp (e ∷ []) = Unit
IsSortedBy cmp (e ∷ (f ∷ es)) = (cmp e f ≢ Ordering.gt) × IsSortedBy cmp (f ∷ es)

-- Neighbours are in order of position, and name one server where they share a position.
abbrev pub IsSettled : List Entry → Type 0
IsSettled [] = Unit
IsSettled (e ∷ []) = Unit
IsSettled (e ∷ (f ∷ es)) =
    (e.pos ≤ f.pos) × ((e.server ≡ f.server) ⊎ (e.pos ≢ f.pos)) × IsSettled (f ∷ es)

pos-le_of_carbon : (e f : Entry) → entrycmp_carbon e f ≢ Ordering.gt → e.pos ≤ f.pos
unfolding entrycmp_carbon
pos-le_of_carbon e f h = ground arith

pos-le_of_fnv1a : (e f : Entry) → entrycmp_fnv1a e f ≢ Ordering.gt → e.pos ≤ f.pos
unfolding entrycmp_fnv1a
pos-le_of_fnv1a e f h = ground arith

abbrev IsOrdered : List Entry → Type 0
IsOrdered [] = Unit
IsOrdered (e ∷ []) = Unit
IsOrdered (e ∷ (f ∷ es)) = (e.pos ≤ f.pos) × IsOrdered (f ∷ es)

IsSortedBy-IsOrdered :
    (cmp : Entry → Entry → Ordering)
    → ((e f : Entry) → cmp e f ≢ Ordering.gt → e.pos ≤ f.pos)
    → (es : List Entry) → IsSortedBy cmp es
    → IsOrdered es
IsSortedBy-IsOrdered cmp le [] h = tt
IsSortedBy-IsOrdered cmp le (e ∷ []) h = tt
IsSortedBy-IsOrdered cmp le (e ∷ (f ∷ es)) h =
    (le e f h.0, IsSortedBy-IsOrdered cmp le (f ∷ es) h.1)

-- the entry after `e` once its server is overwritten
merged : Entry → Entry → Entry
merged e f = if e.pos == f.pos then record f { server = e.server } else f

merged_lem :
    (e f : Entry)
    → ((merged e f).pos ≡ f.pos) × ((e.server ≡ (merged e f).server) ⊎ (e.pos ≢ (merged e f).pos))
unfolding merged
merged_lem e f = elim (Bool-cases (e.pos == f.pos)) [
  | inl same ↦ rw same (refl, inl refl)
  | inr other ↦ rw other (refl, inr (ground arith))
]

IsOrdered-merged :
    (e f : Entry) (es : List Entry) → IsOrdered (f ∷ es) → IsOrdered (merged e f ∷ es)
IsOrdered-merged e f [] h = tt
IsOrdered-merged e f (g ∷ es) h = (rw ((merged_lem e f).0) h.0, h.1)

overwrite-IsSettled : (es : List Entry) → IsOrdered es → IsSettled (overwrite_duplicates es)
unfolding overwrite_duplicates merged
overwrite-IsSettled [] h = tt
overwrite-IsSettled (e ∷ []) h = tt
overwrite-IsSettled (e ∷ (f ∷ [])) h = (rw ((merged_lem e f).0) h.0, (merged_lem e f).1, tt)
overwrite-IsSettled (e ∷ (f ∷ (g ∷ es))) h = (
  rw ((merged_lem e f).0) h.0,
  (merged_lem e f).1,
  overwrite-IsSettled (merged e f ∷ (g ∷ es)) (IsOrdered-merged e f (g ∷ es) h.1),
)

-- Overwriting moves no entry.
pos-overwrite : (es : List Entry) → map (λ e. e.pos) (overwrite_duplicates es) ≡ map (λ e. e.pos) es
unfolding overwrite_duplicates merged
pos-overwrite [] = refl
pos-overwrite (e ∷ []) = refl
pos-overwrite (e ∷ (f ∷ es)) =
    ap (λ ps. e.pos ∷ ps)
      (pos-overwrite (merged e f ∷ es) ∙ ap (λ p. p ∷ map (λ e. e.pos) es) ((merged_lem e f).0))

pos-le_of_comparator :
    (strtol : List ℕ → ℤ × List ℕ) (type : ChType)
    → type ≢ jump_fnv1a
    → (e f : Entry) → comparator strtol type e f ≢ Ordering.gt
    → e.pos ≤ f.pos
unfolding comparator
pos-le_of_comparator strtol carbon h e f le = pos-le_of_carbon e f le
pos-le_of_comparator strtol fnv1a h e f le = pos-le_of_fnv1a e f le
pos-le_of_comparator strtol jump_fnv1a h e f le = absurd (h refl)

-- The server added last completes the ring: for a carbon or fnv1a ring, if qsort sorts the entries
-- by the ring's comparator, then afterwards positions do not fall along the ring, and neighbours at
-- one position name one server.
pub ch_addnode-IsSettled :
    (md5 : List ℕ → List ℕ) (strtol : List ℕ → ℤ × List ℕ)
    (qsort : (Entry → Entry → Ordering) → List Entry → List Entry) (ring : ChRing) (s : Server)
    → ring.type ≢ jump_fnv1a
    → length (ring.entrylist ++ new_entries md5 ring s) ≡ ring.entrysize
    → IsSortedBy
        (comparator strtol ring.type)
        (qsort (comparator strtol ring.type) (ring.entrylist ++ new_entries md5 ring s))
    → IsSettled (ch_addnode md5 strtol qsort ring s).entrylist
unfolding ch_addnode
ch_addnode-IsSettled md5 strtol qsort ring s positional complete sorted =
    rw ((==_iff _ _).1 complete) (
      overwrite-IsSettled _ (
        IsSortedBy-IsOrdered (comparator strtol ring.type)
          (pos-le_of_comparator strtol ring.type positional)
          (qsort (comparator strtol ring.type) (ring.entrylist ++ new_entries md5 ring s)) sorted))
