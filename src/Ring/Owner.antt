-- ===== src/Ring/Owner.antt =====
-- What the binary search of `ch_get_nodes` computes: the server that owns a position.
use carbon_c_relay.Prelude.{
  ℕ, zero, suc, ◌≤◌, ◌<◌, ◌≡◌, refl, sym, ◌∙◌, ap, inl, inr, Option, none, some, List, [], ◌∷◌,
  arith, length, Bool-cases, leb, if◌then◌else◌,
}
use carbon_c_relay.Server.{Server}
use carbon_c_relay.Ring.{Entry}
use carbon_c_relay.Ring.Get.{search}
use carbon_c_relay.Ring.Sorted.{IsSettled}
use carbon_c_relay.Ring.Search.{entry_pos, IsAscending, Stops, exact, after, Finds, search_lem}

-- the server of entry `i`
abbrev pub server_at : List Entry → ℕ → Option Server
server_at [] i = none
server_at (e ∷ es) zero = some e.server
server_at (e ∷ es) (suc i) = server_at es i

-- the server of the first entry at or after a position, if there is one
abbrev pub first_from : List Entry → ℕ → Option Server
first_from [] pos = none
first_from (e ∷ es) pos = if leb pos e.pos then some e.server else first_from es pos

-- The owner of a position: the first entry at or after it, going round at the end of the ring.
abbrev pub owner : List Entry → ℕ → Option Server
owner es pos = elim (first_from es pos) [ none ↦ server_at es 0 | some s ↦ some s ]

IsSettled-tail : (e : Entry) (es : List Entry) → IsSettled (e ∷ es) → IsSettled es
IsSettled-tail e [] h = tt
IsSettled-tail e (f ∷ es) h = h.2

head_least :
    (e : Entry) (es : List Entry) (j : ℕ)
    → IsSettled (e ∷ es)
    → j < length es
    → e.pos ≤ entry_pos es j
head_least e [] j h b = absurd (omega arith)
head_least e (f ∷ es) zero h b = h.0
head_least e (f ∷ es) (suc j) h b = omega (arith, head_least f es j h.2 (omega arith), h.0)

pub IsSettled-IsAscending : (es : List Entry) → IsSettled es → IsAscending es
IsSettled-IsAscending [] h i j le b = absurd (omega arith)
IsSettled-IsAscending (e ∷ es) h zero zero le b = omega arith
IsSettled-IsAscending (e ∷ es) h zero (suc j) le b = head_least e es j h (omega arith)
IsSettled-IsAscending (e ∷ es) h (suc i) zero le b = absurd (omega arith)
IsSettled-IsAscending (e ∷ es) h (suc i) (suc j) le b =
    IsSettled-IsAscending es (IsSettled-tail e es h) i j (omega arith) (omega arith)

-- Entries at the head's position name the head's server.
same_server :
    (e : Entry) (es : List Entry) (j : ℕ)
    → IsSettled (e ∷ es)
    → j < length es
    → entry_pos es j ≡ e.pos
    → server_at es j ≡ some e.server
same_server e [] j h b p = absurd (omega arith)
same_server e (f ∷ es) zero h b p = elim h.1 [
  | inl same ↦ ap (λ s. some s) (sym same)
  | inr other ↦ absurd (other (sym p))
]
same_server e (f ∷ es) (suc j) h b p =
    let ef : e.pos ≡ f.pos = omega (arith, h.0, head_least f es j h.2 (omega arith)) in
    elim h.1 [
      | inl same ↦ same_server f es j h.2 (omega arith) (p ∙ ef) ∙ ap (λ s. some s) (sym same)
      | inr other ↦ absurd (other ef)
    ]

first_from_exact :
    (es : List Entry) (pos t : ℕ)
    → IsSettled es
    → t < length es
    → entry_pos es t ≡ pos
    → first_from es pos ≡ server_at es t
first_from_exact [] pos t h b e = absurd (omega arith)
first_from_exact (x ∷ es) pos zero h b e = ground arith
first_from_exact (x ∷ es) pos (suc t) h b e = elim (Bool-cases (leb pos x.pos)) [
  | inl le ↦
      rw le (
        sym
          (same_server x es t h (omega arith) (ground (arith, head_least x es t h (omega arith)))))
  | inr more ↦ rw more (first_from_exact es pos t (IsSettled-tail x es h) (omega arith) e)
]

first_from_after :
    (es : List Entry) (pos t : ℕ)
    → t < length es
    → ((k : ℕ) → k < t → k < length es → entry_pos es k < pos)
    → pos < entry_pos es t
    → first_from es pos ≡ server_at es t
first_from_after [] pos t b below above = absurd (omega arith)
first_from_after (x ∷ es) pos zero b below above = ground arith
first_from_after (x ∷ es) pos (suc t) b below above = ground (
  arith,
  below 0,
  first_from_after es pos t (omega arith) (λ k h c. below (suc k) (omega arith) (omega arith))
      above,
)

first_from-none :
    (es : List Entry) (pos : ℕ)
    → ((k : ℕ) → k < length es → entry_pos es k < pos)
    → first_from es pos ≡ none
first_from-none [] pos below = refl
first_from-none (x ∷ es) pos below =
    ground (arith, below 0, first_from-none es pos (λ k c. below (suc k) (omega arith)))

-- `if (t >= ring->entrycnt) t = 0`, the first step of the walk
abbrev pub round : List Entry → ℕ → ℕ
round es t = if leb (length es) t then 0 else t

server_at_in : (es : List Entry) (t : ℕ) → t < length es → (s : Server) × (server_at es t ≡ some s)
server_at_in [] t b = absurd (omega arith)
server_at_in (e ∷ es) zero b = (e.server, refl)
server_at_in (e ∷ es) (suc t) b = server_at_in es t (omega arith)

owner_of_first :
    (es : List Entry) (pos t : ℕ)
    → t < length es
    → first_from es pos ≡ server_at es t
    → server_at es (round es t) ≡ owner es pos
owner_of_first es pos t b e = ground (arith, server_at_in es t b)

Stops-owner :
    (es : List Entry) (pos t : ℕ)
    → IsSettled es
    → Stops es pos t
    → server_at es (round es t) ≡ owner es pos
Stops-owner es pos t h (exact b e) = owner_of_first es pos t b (first_from_exact es pos t h b e)
Stops-owner es pos t h (after below above) = elim (Bool-cases (leb (length es) t)) [
  | inl past ↦ ground (arith, first_from-none es pos (λ k c. below k (ground arith) c))
  | inr inside ↦
      owner_of_first es pos t (ground arith)
        (first_from_after es pos t (ground arith) below (above (ground arith)))
]

-- The result names the server that owns the position.
abbrev pub Owns : List Entry → ℕ → Option ℕ → Type 0
Owns es pos none = ⊥
Owns es pos (some t) = server_at es (round es t) ≡ owner es pos

-- On a settled ring of two entries or more the binary search ends, and the entry that the walk
-- starts from names the owner of the position: the server of the first entry at or after it, or of
-- the ring's first entry if there is none. What lies behind the last entry does not matter.
pub search-owner :
    (beyond : ℕ) (es : List Entry) (pos : ℕ)
    → IsSettled es
    → 2 ≤ length es
    → Owns es pos (search beyond es pos (suc (length es)) 0 (length es))
search-owner beyond es pos h two =
    (elim (search beyond es pos (suc (length es)) 0 (length es))
        as (λ r. Finds es pos r → Owns es pos r) [
          | none ↦ λ f. f
          | some t ↦ λ f. Stops-owner es pos t h f
        ])
      (search_lem beyond es pos (IsSettled-IsAscending es h) two)
