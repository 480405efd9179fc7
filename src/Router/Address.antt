-- ===== src/Router/Address.antt =====
-- router.c: `router_validate_address`, up to the look-up of the host: the host and the port of a text,
-- which has a byte at least. Memory is granted; `strtol` gives a number and how many bytes it has read.
use carbon_c_relay.Prelude.Int.{ℤ, pos, negsuc, ltb_ℤ}
use carbon_c_relay.Prelude.{
  ℕ, ◌≤◌, ◌≡◌, refl, ◌∙◌, Bool, true, false, not, ◌||◌, Option, none, some, List, [], ◌∷◌, ◌++◌,
  if◌then◌else◌, ◌==◌, length, arith,
}

-- `GRAPHITE_PORT`
abbrev pub graphite_port : ℕ
graphite_port = 2003

-- `retip` and `retport`, or the error
pub data Address : Type 0 where
  invalid_port : List ℕ → Address
  expected_bracket : Address
  address : Option (List ℕ) → ℕ → Address

-- the text before and behind the last colon
unfoldable pub last_colon : List ℕ → Option (List ℕ × List ℕ)
last_colon [] = none
last_colon (c ∷ s) = elim (last_colon s) [
  | some (host, port) ↦ some (c ∷ host, port)
  | none ↦ if c == b':' then some ([], s) else none
]

-- the text without the bracket at its end, if it has one
unfoldable pub cut_bracket : List ℕ → Option (List ℕ)
cut_bracket [] = none
cut_bracket (c ∷ []) = if c == b']' then some [] else none
cut_bracket (c ∷ d ∷ s) = elim (cut_bracket (d ∷ s)) [ none ↦ none | some t ↦ some (c ∷ t) ]

-- what is done with the host; `any` where there is a port
unfoldable pub host_of : Bool → List ℕ → ℕ → Address
unfolding cut_bracket
host_of any [] port = address (if any then none else some []) port
host_of any (c ∷ s) port =
    if c == b'['
    then (elim (cut_bracket s) [ none ↦ expected_bracket | some ip ↦ address (some ip) port ])
    else address (some (c ∷ s)) port

module _ (strtol : List ℕ → ℤ × ℕ) where
  unfoldable pub port_of : List ℕ → Option ℕ
  port_of text =
      let (lport, read) = strtol text in
      if ltb_ℤ lport (pos 1) || (ltb_ℤ (pos 65535) lport || not (read == length text))
      then none
      else (elim lport [ pos n ↦ some n | negsuc n ↦ none ])

  unfoldable pub with_port : List ℕ → List ℕ → Address
  unfolding port_of host_of
  with_port host port = elim (port_of port) [
    | none ↦ invalid_port port
    | some n ↦ host_of true host n
  ]

  unfoldable pub router_validate_address : List ℕ → Address
  unfolding last_colon cut_bracket with_port host_of
  router_validate_address ip = elim (cut_bracket ip) [
    | some t ↦ host_of false ip graphite_port
    | none ↦ elim (last_colon ip) [
      | none ↦ host_of false ip graphite_port
      | some (host, port) ↦ with_port host port
    ]
  ]

abbrev pub Lacks : ℕ → List ℕ → Type 0
Lacks c [] = Unit
Lacks c (d ∷ s) = ((d == c) ≡ false) × Lacks c s

last_colon-none : (s : List ℕ) → Lacks b':' s → last_colon s ≡ none
unfolding last_colon
last_colon-none [] h = refl
last_colon-none (c ∷ s) h = rw (last_colon-none s h.1, h.0) refl

last_colon-append :
    (host port : List ℕ) → Lacks b':' port → last_colon (host ++ (b':' ∷ port)) ≡ some (host, port)
unfolding last_colon
last_colon-append [] port h = rw (last_colon-none port h) refl
last_colon-append (c ∷ host) port h = rw (last_colon-append host port h) refl

cut_bracket-append : (s : List ℕ) → cut_bracket (s ++ (b']' ∷ [])) ≡ some s
unfolding cut_bracket
cut_bracket-append [] = refl
cut_bracket-append (c ∷ []) = refl
cut_bracket-append (c ∷ d ∷ s) = rw (cut_bracket-append (d ∷ s)) refl

cut_bracket-Lacks : (s : List ℕ) → Lacks b']' s → cut_bracket s ≡ none
unfolding cut_bracket
cut_bracket-Lacks [] h = refl
cut_bracket-Lacks (c ∷ []) h = rw (h.0) refl
cut_bracket-Lacks (c ∷ d ∷ s) h = rw (cut_bracket-Lacks (d ∷ s) h.1) refl

cut_bracket-none :
    (host port : List ℕ) → Lacks b']' port → cut_bracket (host ++ (b':' ∷ port)) ≡ none
unfolding cut_bracket
cut_bracket-none [] [] h = refl
cut_bracket-none [] (c ∷ port) h = rw (cut_bracket-Lacks (c ∷ port) h) refl
cut_bracket-none (c ∷ []) port h = rw (cut_bracket-none [] port h) refl
cut_bracket-none (c ∷ d ∷ host) port h = rw (cut_bracket-none (d ∷ host) port h) refl

module _ (strtol : List ℕ → ℤ × ℕ) (port : List ℕ) (n : ℕ) (no_colon : Lacks b':' port)
    (no_bracket : Lacks b']' port) (reads : strtol port ≡ (pos n, length port)) (low : 1 ≤ n)
    (high : n ≤ 65535) where
  port_of-reads : port_of strtol port ≡ some n
  unfolding port_of
  port_of-reads = rw (reads) (ground arith)

  with_port-reads : (host : List ℕ) → with_port strtol host port ≡ host_of true host n
  unfolding with_port
  with_port-reads host = rw (with_port, port_of-reads) refl

  behind_colon :
      (host : List ℕ) → router_validate_address strtol (host ++ (b':' ∷ port)) ≡ host_of true host n
  unfolding router_validate_address
  behind_colon host =
      rw
        (
          router_validate_address,
          cut_bracket-none host port no_bracket,
          last_colon-append host port no_colon,
        )
        (with_port-reads host)

  in_brackets :
      (any : Bool) (ip : List ℕ) (k : ℕ)
      → host_of any (b'[' ∷ (ip ++ (b']' ∷ []))) k ≡ address (some ip) k
  unfolding host_of
  in_brackets any ip k = rw (cut_bracket-append ip) refl

  -- For a text `port` without colons and brackets that strtol reads whole, as a number of a port: behind a host
  -- and a colon it is the port of the host, behind a colon alone that of any interface, and behind an
  -- address in brackets and a colon that of the address; such an address without it has the port of graphite.
  pub router_validate_address-reads :
      (h : ℕ) (hs ip : List ℕ)
      → (h == b'[') ≡ false
      → (router_validate_address strtol (h ∷ hs ++ (b':' ∷ port)) ≡ address (some (h ∷ hs)) n)
        × (router_validate_address strtol (b':' ∷ port) ≡ address none n)
        × (router_validate_address strtol (b'[' ∷ (ip ++ (b']' ∷ [])) ++ (b':' ∷ port))
            ≡ address (some ip) n)
        × (router_validate_address strtol (b'[' ∷ (ip ++ (b']' ∷ [])))
            ≡ address (some ip) graphite_port)
  unfolding host_of router_validate_address
  router_validate_address-reads h hs ip e = (
    behind_colon (h ∷ hs) ∙ rw (e) refl,
    behind_colon [],
    behind_colon (b'[' ∷ (ip ++ (b']' ∷ []))) ∙ in_brackets true ip n,
    rw (router_validate_address, cut_bracket-append (b'[' ∷ ip))
        (in_brackets false ip graphite_port),
  )
