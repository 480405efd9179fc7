-- ===== src/Server/Conn/Stream.antt =====
-- What the calls on a connection do to the bytes of its buffer and to those that the socket has taken.
use mathlib.Core.Path.{subst}
use mathlib.Core.List.{append_assoc, append-nil}
use carbon_c_relay.Prelude.{
  ℕ, zero, suc, ◌≡◌, refl, sym, ◌∙◌, ap, Bool, true, false, Option, none, some, List, [], ◌∷◌, ◌++◌,
  if◌then◌else◌, ◌==◌, length, take, drop, arith, Bool-cases, inl, inr, ◌⊎◌, ltb, ==_iff,
  take-append-drop,
}
use carbon_c_relay.Server.Conn.{
  Poll, failed, writable, hung_up, other, timed_out, Written, took, interrupted, broken, Socket,
  Conn, server_add_failure, server_disconnect, tick, flush_loop, sockflush, polled, server_poll,
  server_max_send,
}

-- `more` bytes or none behind others
abbrev pub Begins : List ℕ → List ℕ → Type 0
Begins wire base = (more : List ℕ) × (wire ≡ base ++ more)

pub Begins-refl : (xs : List ℕ) → Begins xs xs
Begins-refl xs = ([], sym (append-nil xs))

pub Begins-append : (xs ys : List ℕ) → Begins (xs ++ ys) xs
Begins-append xs ys = (ys, refl)

pub Begins-trans : (xs ys zs : List ℕ) → Begins xs ys → Begins ys zs → Begins xs zs
Begins-trans xs ys zs (more, e) (more', e') =
    (more' ++ more, rw (e, e') (append_assoc zs more' more))

-- the same bytes in the buffer and on the wire
abbrev pub Same : Conn → Conn → Type 0
Same c c' = (c'.wire ≡ c.wire) × (c'.obuf ≡ c.obuf)

pub server_add_failure-Same : (c : Conn) → Same c (server_add_failure c)
unfolding server_add_failure
server_add_failure-Same c = elim (Bool-cases (ltb c.failure 6)) [
  | inl few ↦ rw few (refl, refl)
  | inr many ↦ rw many (refl, refl)
]

polled-Same : (p : Poll) (c : Conn) → Same c (polled p c).1
unfolding polled server_disconnect
polled-Same failed c = (refl, refl)
polled-Same writable c = (refl, refl)
polled-Same hung_up c = server_add_failure-Same c
polled-Same other c = server_add_failure-Same c
polled-Same timed_out c = (refl, refl)

-- What a flush of `p` leaves, with `w` on the wire before: all of it taken and the buffer empty, or a
-- part of it taken.
pub data Flush (w p : List ℕ) : Bool × Conn → Type 0 where
  whole : {c' : Conn} → c'.wire ≡ w ++ p → c'.obuf ≡ [] → Flush w p (true, c')
  part : {c' : Conn} → Begins c'.wire w → Flush w p (false, c')

after_part :
    (w taken left : List ℕ) (r : Bool × Conn)
    → Flush (w ++ taken) left r
    → Flush w (taken ++ left) r
after_part w taken left r (whole e o) = whole (e ∙ append_assoc w taken left) o
after_part w taken left r (part b) = part (Begins-trans _ _ _ b (taken, refl))

Written-cases : (w : Written) → ((n : ℕ) × (w ≡ took n)) ⊎ ((w ≡ interrupted) ⊎ (w ≡ broken))
Written-cases (took n) = inl (n, refl)
Written-cases interrupted = inr (inl refl)
Written-cases broken = inr (inr refl)

take_all : (xs : List ℕ) → take (length xs) xs ≡ xs
take_all [] = refl
take_all (x ∷ xs) = ap (λ l. x ∷ l) (take_all xs)

module _ (socket : Socket) where
  pub server_poll-Same : (c : Conn) → Same c (server_poll socket c).1
  unfolding server_poll
  server_poll-Same c = by_fd c.fd
    where
      by_fd :
          (o : Option ℕ)
          → Same c
              (elim o as (λ _. Bool × Conn) [
                | none ↦ (false, c)
                | some fd ↦ if fd == 0 then (false, c) else polled (socket.poll c.clock) (tick c)
              ]).1
      by_fd none = (refl, refl)
      by_fd (some fd) = elim (Bool-cases (fd == 0)) [
        | inl standard ↦ rw standard (refl, refl)
        | inr proper ↦ rw proper (polled-Same (socket.poll c.clock) (tick c))
      ]

  flush_loop-Flush : (cnt : ℕ) (p : List ℕ) (c : Conn) → Flush c.wire p (flush_loop socket cnt p c)
  unfolding flush_loop
  flush_loop-Flush zero p c = part (Begins-refl c.wire)
  flush_loop-Flush (suc cnt) p c = elim (Written-cases (socket.write c.clock p)) [
    | inr (inl e) ↦ rw (flush_loop, e) (flush_loop-Flush cnt p (tick c))
    | inr (inr e) ↦ rw (flush_loop, e) (part (Begins-refl c.wire))
    | inl (n, e) ↦
        rw (flush_loop, e)
          (elim (Bool-cases (n == length p)) [
            | inl all ↦ rw all (
                whole
                  (ap (λ l. c.wire ++ l)
                    (ap (λ k. take k p) ((==_iff n (length p)).0 all) ∙ take_all p))
                  refl)
            | inr some_of ↦ rw some_of (going n (λ p' c'. flush_loop-Flush cnt p' c'))
          ])
  ]
    where
      going :
          (n : ℕ)
          → ((p' : List ℕ) (c' : Conn) → Flush c'.wire p' (flush_loop socket cnt p' c'))
          → Flush c.wire p (
              flush_loop socket cnt
                (drop n p)
                (tick (record (tick c) { wire = c.wire ++ take n p })))
      going n ih =
          let c' : Conn = tick (record (tick c) { wire = c.wire ++ take n p }) in
          subst (λ l. Flush c.wire l (flush_loop socket cnt (drop n p) c')) (take-append-drop n p)
            (after_part c.wire (take n p) (drop n p) _ (ih (drop n p) c'))

  -- A flush moves the buffer to the wire, or fails and leaves a part of it there.
  pub sockflush-Flush : (c : Conn) → Flush c.wire c.obuf (sockflush socket c)
  unfolding sockflush
  sockflush-Flush c = elim (Bool-cases (length c.obuf == 0)) [
    | inr full ↦ rw full (flush_loop-Flush server_max_send c.obuf c)
    | inl empty ↦ rw empty (nothing c.obuf empty refl)
  ]
    where
      nothing : (p : List ℕ) → (length p == 0) ≡ true → c.obuf ≡ p → Flush c.wire p (true, c)
      nothing [] e o = whole (sym (append-nil c.wire)) o
      nothing (x ∷ p) e o = ground arith
