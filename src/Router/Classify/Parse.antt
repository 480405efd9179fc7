-- ===== src/Router/Classify/Parse.antt =====
-- What the loop over a pattern has read, where it does not stop at an expression.
use mathlib.Core.Path.{subst}
use mathlib.Core.List.{append_assoc, append-nil}
use carbon_c_relay.Prelude.{
  ℕ, ◌≡◌, refl, sym, ◌∙◌, ap, Bool, true, false, List, [], ◌∷◌, ◌++◌, if◌then◌else◌, ◌==◌, length,
  Bool-cases, inl, inr, ==_iff,
}
use carbon_c_relay.Router.Classify.{
  MatchType, Class, backslash, meta, dollar, ordinary, odd, class_of, Reading, patbuf_size,
  is_regex, with_end, keep, read_char, read_pattern,
}
use carbon_c_relay.Router.Classify.Literal.{escaped_as, escaped, is_literal, IsText, at}

-- what may stand behind the text: nothing, an anchor, or a backslash that escapes nothing
pub data Ends (type : MatchType) : List ℕ → MatchType → Type 0 where
  bare : Ends type [] type
  anchored : Ends type (b'$' ∷ []) (with_end type)
  stray : Ends type (b'\\' ∷ []) type

abbrev pub pending : Bool → List ℕ → List ℕ
pending true e = b'\\' ∷ e
pending false e = e

pub record ReadBack (type : MatchType) (buf : List ℕ) (escape : Bool) (e : List ℕ) (r : Reading)
    : Type 0 where
  pub text : List ℕ
  pub ending : List ℕ
  pub is_text : IsText text
  pub gathered : r.patbuf ≡ buf ++ text
  pub parsed : pending escape e ≡ escaped text ++ ending
  pub ends : Ends type ending r.type

read_none : (r : Reading) → read_pattern [] r ≡ r
unfolding read_pattern
read_none r = refl

-- A round that the loop goes on from.
record GoesOn (c : ℕ) (e : List ℕ) (r r1 : Reading) : Type 0 where
  open_type : is_regex r1.type ≡ false
  next : read_pattern (c ∷ e) r ≡ read_pattern e r1

goes_on :
    (c : ℕ) (e : List ℕ) (r r1 : Reading)
    → read_char (class_of c) c e r.escape r ≡ r1
    → is_regex (read_pattern (c ∷ e) r).type ≡ false
    → GoesOn c e r r1
unfolding read_pattern
goes_on c e r r1 h f = elim (Bool-cases (length r1.patbuf == patbuf_size)) [
  | inl full ↦ absurd (stops full)
  | inr room ↦ elim (Bool-cases (is_regex r1.type)) [
    | inl bad ↦ absurd (is_bad room bad)
    | inr good ↦ record { open_type = good; next = rw (read_pattern, h, room, good) refl }
  ]
]
  where
    stops : (length r1.patbuf == patbuf_size) ≡ true → ⊥
    stops full =
        let e1 : is_regex (read_pattern (c ∷ e) r).type ≡ true = rw (read_pattern, h, full) refl in
        cc

    is_bad : (length r1.patbuf == patbuf_size) ≡ false → is_regex r1.type ≡ true → ⊥
    is_bad room bad =
        let e1 : is_regex (read_pattern (c ∷ e) r).type ≡ true =
          rw (read_pattern, h, room, bad, bad) refl in
        cc

abbrev pick : Bool → Bool → Bool → Bool → Class
pick a b c d =
    if a then backslash else if b then meta else if c then dollar else if d then ordinary else odd

pick-backslash : (a b c d : Bool) → pick a b c d ≡ backslash → a ≡ true
pick-backslash true b c d h = refl
pick-backslash false true c d h = cc
pick-backslash false false true d h = cc
pick-backslash false false false true h = cc
pick-backslash false false false false h = cc

pick-dollar : (a b c d : Bool) → pick a b c d ≡ dollar → c ≡ true
pick-dollar true b c d h = cc
pick-dollar false true c d h = cc
pick-dollar false false true d h = refl
pick-dollar false false false true h = cc
pick-dollar false false false false h = cc

backslash_lem : (c : ℕ) → class_of c ≡ backslash → c ≡ b'\\'
unfolding class_of
backslash_lem c h = (==_iff c b'\\').0 (pick-backslash _ _ _ _ h)

dollar_lem : (c : ℕ) → class_of c ≡ dollar → c ≡ b'$'
unfolding class_of
dollar_lem c h = (==_iff c b'$').0 (pick-dollar _ _ _ _ h)

-- The parse of what follows a kept character is one with it.
keeps :
    {type : MatchType} {buf : List ℕ} {e : List ℕ} {r : Reading} (escape : Bool) (c : ℕ)
    → is_literal (class_of c) ≡ true
    → pending escape (c ∷ e) ≡ escaped_as (class_of c) c ++ e
    → ReadBack type (buf ++ (c ∷ [])) false e r
    → ReadBack type buf escape (c ∷ e) r
keeps {buf} escape c l p b = record {
  text = c ∷ b.text;
  ending = b.ending;
  is_text = (l, b.is_text);
  gathered = b.gathered ∙ append_assoc buf (c ∷ []) b.text;
  parsed =
      p
      ∙ ap (λ x. escaped_as (class_of c) c ++ x) b.parsed
      ∙ sym (append_assoc (escaped_as (class_of c) c) (escaped b.text) b.ending);
  ends = b.ends;
}

pub nothing_left :
    (type : MatchType) (buf : List ℕ) (escape : Bool)
    → ReadBack type buf escape [] (at type buf escape)
nothing_left type buf false = record {
  text = [];
  ending = [];
  is_text = tt;
  gathered = sym (append-nil buf);
  parsed = refl;
  ends = bare;
}
nothing_left type buf true = record {
  text = [];
  ending = b'\\' ∷ [];
  is_text = tt;
  gathered = sym (append-nil buf);
  parsed = refl;
  ends = stray;
}

dollar_last :
    (type : MatchType) (buf : List ℕ) (c : ℕ)
    → c ≡ b'$'
    → ReadBack type buf false (c ∷ []) (at (with_end type) buf false)
dollar_last type buf c h = record {
  text = [];
  ending = b'$' ∷ [];
  is_text = tt;
  gathered = sym (append-nil buf);
  parsed = ap (λ x. x ∷ []) h;
  ends = anchored;
}

-- What is known of the rest of the pattern, where a round leaves `buf` and `escape`.
abbrev pub Rest : MatchType → List ℕ → Type 0
Rest type e =
    (buf : List ℕ) (escape : Bool)
    → is_regex (read_pattern e (at type buf escape)).type ≡ false
    → ReadBack type buf escape e (read_pattern e (at type buf escape))

abbrev Parsed : MatchType → List ℕ → Bool → ℕ → List ℕ → Type 0
Parsed type buf escape c e =
    ReadBack type buf escape (c ∷ e) (read_pattern (c ∷ e) (at type buf escape))

onward :
    (type : MatchType) (buf : List ℕ) (escape : Bool) (c : ℕ) (e buf' : List ℕ) (escape' : Bool)
    → is_regex (read_pattern (c ∷ e) (at type buf escape)).type ≡ false
    → read_char (class_of c) c e escape (at type buf escape) ≡ at type buf' escape'
    → Rest type e
    → (ReadBack type buf' escape' e (read_pattern e (at type buf' escape'))
        → ReadBack type buf escape (c ∷ e) (read_pattern e (at type buf' escape')))
    → Parsed type buf escape c e
onward type buf escape c e buf' escape' f h ih back =
    let go = goes_on c e (at type buf escape) (at type buf' escape') h f in
    subst (ReadBack type buf escape (c ∷ e)) (sym go.next)
      (back (ih buf' escape' (ap (λ r. is_regex r.type) (sym go.next) ∙ f)))

kept_round :
    (type : MatchType) (buf : List ℕ) (escape : Bool) (c : ℕ) (e : List ℕ) (k : Class)
    → class_of c ≡ k
    → read_char k c e escape (at type buf escape) ≡ keep (at type buf escape) c
    → is_literal k ≡ true
    → pending escape (c ∷ e) ≡ escaped_as k c ++ e
    → is_regex (read_pattern (c ∷ e) (at type buf escape)).type ≡ false
    → Rest type e
    → Parsed type buf escape c e
kept_round type buf escape c e k ck h l p f ih =
    onward type buf escape c e (buf ++ (c ∷ [])) false f
      (ap (λ x. read_char x c e escape (at type buf escape)) ck ∙ h) ih
      (keeps escape c (ap is_literal ck ∙ l) (p ∙ ap (λ x. escaped_as x c ++ e) (sym ck)))

no_regex :
    (type : MatchType) (buf : List ℕ) (escape : Bool) (c : ℕ) (e : List ℕ) (k : Class)
    (r1 : Reading)
    → class_of c ≡ k
    → read_char k c e escape (at type buf escape) ≡ r1
    → is_regex r1.type ≡ true
    → is_regex (read_pattern (c ∷ e) (at type buf escape)).type ≡ false
    → Parsed type buf escape c e
no_regex type buf escape c e k r1 ck h t f =
    let go =
      goes_on c e (at type buf escape) r1
        (ap (λ x. read_char x c e escape (at type buf escape)) ck ∙ h) f in
    absurd (clash t go.open_type)
  where
    clash : is_regex r1.type ≡ true → is_regex r1.type ≡ false → ⊥
    clash a b = cc

read_round :
    (type : MatchType) (buf : List ℕ) (escape : Bool) (c : ℕ) (e : List ℕ) (k : Class)
    → class_of c ≡ k
    → is_regex (read_pattern (c ∷ e) (at type buf escape)).type ≡ false
    → Rest type e
    → Parsed type buf escape c e
unfolding read_char
read_round type buf true c e backslash ck f ih =
    kept_round type buf true c e backslash ck refl refl refl f ih
read_round type buf true c e meta ck f ih = kept_round type buf true c e meta ck refl refl refl f ih
read_round type buf false c e ordinary ck f ih =
    kept_round type buf false c e ordinary ck refl refl refl f ih
read_round type buf false c e backslash ck f ih =
    onward type buf false c e buf true f (ap (λ x. read_char x c e false (at type buf false)) ck) ih
      (λ b. record {
        text = b.text;
        ending = b.ending;
        is_text = b.is_text;
        gathered = b.gathered;
        parsed = ap (λ x. x ∷ e) (backslash_lem c ck) ∙ b.parsed;
        ends = b.ends;
      })
read_round type buf false c [] dollar ck f ih =
    let go =
      goes_on c [] (at type buf false) (at (with_end type) buf false)
        (ap (λ x. read_char x c [] false (at type buf false)) ck) f in
    subst (ReadBack type buf false (c ∷ []))
      (sym (go.next ∙ read_none (at (with_end type) buf false)))
      (dollar_last type buf c (dollar_lem c ck))
read_round type buf false c (d ∷ e) dollar ck f ih =
    no_regex type buf false c (d ∷ e) dollar _ ck refl refl f
read_round type buf true c e dollar ck f ih = no_regex type buf true c e dollar _ ck refl refl f
read_round type buf true c e ordinary ck f ih = no_regex type buf true c e ordinary _ ck refl refl f
read_round type buf false c e meta ck f ih = no_regex type buf false c e meta _ ck refl refl f
read_round type buf escape c e odd ck f ih = no_regex type buf escape c e odd _ ck refl refl f

pub read_back : (type : MatchType) (e : List ℕ) → Rest type e
unfolding read_pattern
read_back type [] buf escape f = nothing_left type buf escape
read_back type (c ∷ e) buf escape f =
    read_round type buf escape c e (class_of c) refl f (read_back type e)
