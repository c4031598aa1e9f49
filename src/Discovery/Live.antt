-- ===== src/Discovery/Live.antt =====
-- The choice of an address and the items of src/expra_connect/discovery/candidates.py.
use expra_connect.Prelude.{
  ℕ, ◌≤◌, ◌≡◌, refl, subst, String, string_eq, option_eq, ◌==◌, Bool, true, false, Option, none,
  some, Result, ok, err, List, [], ◌∷◌, Dict, erase, lookup, lookup-put, lookup-erase, keys,
  if◌then◌else◌, ltb, filter, Floats, All, contains, arith, Bool-cases, inl, inr,
}
use text.Mathlib.TextEquality.{eq_iff}
use expra_connect.Discovery.{
  PortValue, whole, unfit, normalize_port, DiscoveryCandidate, validate_candidate, IpAddress,
  address_rank, first_least, preferred_address, DiscoveryRegistry, add, add_checked, add_valid,
  remove, erase_keys, expire,
}

-- `a` is one of `l` and ranks no worse than any.
pub record IsLeast (key : String → ℕ) (l : List String) (a : String) : Type 0 where
  pub listed : contains a l ≡ true
  pub least : All (λ b. key a ≤ key b) l

chosen-le :
    (key : String → ℕ) (best a : String)
    → (key (if ltb (key a) (key best) then a else best) ≤ key best)
      × (key (if ltb (key a) (key best) then a else best) ≤ key a)
chosen-le key best a = (ground arith, ground arith)

first_least-le :
    (key : String → ℕ) (best : String) (l : List String)
    → (key (first_least key best l) ≤ key best) × All (λ b. key (first_least key best l) ≤ key b) l
unfolding first_least
first_least-le key best [] = (omega arith, tt)
first_least-le key best (a ∷ l) =
    let (h, k) = first_least-le key (if ltb (key a) (key best) then a else best) l in
    let (b, c) = chosen-le key best a in (omega (arith, h, b), (omega (arith, h, c), k))

first_least-listed :
    (key : String → ℕ) (best : String) (l : List String)
    → contains (first_least key best l) (best ∷ l) ≡ true
unfolding first_least
first_least-listed key best [] = ground (arith, eq_iff best best)
first_least-listed key best (a ∷ l) =
    ground (arith, first_least-listed key a l, first_least-listed key best l)

-- The address that `preferred_address` returns is one of those given, and none of them has a
-- smaller rank.
pub preferred_address-IsLeast :
    (parse : String → Option IpAddress) (l : List String) (a : String)
    → preferred_address parse l ≡ ok a
    → IsLeast (address_rank parse) l a
unfolding preferred_address
preferred_address-IsLeast parse [] a e = absurd (ground arith)
preferred_address-IsLeast parse (b ∷ l) a e =
    subst (IsLeast (address_rank parse) (b ∷ l)) (ground arith) (record {
      listed = first_least-listed (address_rank parse) b l;
      least = first_least-le (address_rank parse) b l;
    })

lookup-erase_keys :
    {F : Type 0} (k : String) (l : List String) (d : Dict String (DiscoveryCandidate F))
    (c : DiscoveryCandidate F)
    → lookup k (erase_keys l d) ≡ some c
    → (lookup k d ≡ some c) × (contains k l ≡ false)
unfolding erase_keys
lookup-erase_keys k [] d c e = (e, refl)
lookup-erase_keys k (j ∷ l) d c e =
    ground (arith, lookup-erase_keys k l (erase j d) c e, lookup-erase j k d)

-- a key whose item passes the test is among the keys that are kept
listed_key :
    {F : Type 0} (q : String × DiscoveryCandidate F → Bool) (k : String)
    (d : Dict String (DiscoveryCandidate F)) (c : DiscoveryCandidate F)
    → lookup k d ≡ some c
    → ((j : String) → q (j, c) ≡ true)
    → contains k (keys (filter q d)) ≡ true
unfolding lookup
listed_key q k [] c e h = absurd (ground arith)
listed_key q k ((j, x) ∷ d) c e h = ground (arith, listed_key q k d c, h j)

-- An item that is found after `expire` was there before, and the time since it was seen is not more
-- than the time to live.
pub expire-lookup :
    {F : Type 0} ⦃fl : Floats F⦄ (sub : F → F → F) (r : DiscoveryRegistry F) (current : F)
    (k : String) (c : DiscoveryCandidate F)
    → lookup k (expire sub r current).1.items ≡ some c
    → (lookup k r.items ≡ some c) × (fl.lt r.ttl (sub current c.seen_at) ≡ false)
unfolding expire
expire-lookup {F = F} ⦃fl = fl⦄ sub r current k c e =
    let stale = λ (p : String × DiscoveryCandidate F). fl.lt r.ttl (sub current p.1.seen_at) in
    let (was, kept) = lookup-erase_keys k (keys (filter stale r.items)) r.items c e in
    (
      was,
      elim (Bool-cases (fl.lt r.ttl (sub current c.seen_at))) [
        | inr f ↦ f
        | inl t ↦ absurd (ground (arith, kept, listed_key stale k r.items c was λ j. t))
      ],
    )

-- An item of the registry: it has its own key, is not the node itself, and can be reached at a port.
pub record IsPeer {F : Type 0} (self_id : Option String) (k : String) (c : DiscoveryCandidate F)
    : Type 0 where
  pub own_key : c.stable_id ≡ k
  pub valid : validate_candidate c self_id ≡ ok tt
  pub port_number : ℕ
  pub at_port : c.port ≡ whole port_number

pub record HoldsPeers {F : Type 0} (r : DiscoveryRegistry F) : Type 0 where
  pub peers :
      (k : String) (c : DiscoveryCandidate F) → lookup k r.items ≡ some c → IsPeer r.self_id k c

normal_again :
    (p : PortValue) (n : ℕ) → normalize_port p ≡ some n → normalize_port (whole n) ≡ some n
unfolding normalize_port
normal_again unfit n e = absurd (ground arith)
normal_again (whole m) n e = ground arith

valid_again :
    {F : Type 0} (c : DiscoveryCandidate F) (s : Option String) (n : ℕ) (t : F)
    → normalize_port c.port ≡ some n
    → validate_candidate c s ≡ ok tt
    → validate_candidate (record c { port = whole n; seen_at = t }) s ≡ ok tt
unfolding validate_candidate
valid_again c s n t e v = ground (arith, normal_again c.port n e)

add_valid-HoldsPeers :
    {F : Type 0} (r : DiscoveryRegistry F) (c : DiscoveryCandidate F) (t : F) (o : Option ℕ)
    → normalize_port c.port ≡ o
    → validate_candidate c r.self_id ≡ ok tt
    → HoldsPeers r
    → HoldsPeers (add_valid r c t o).1
add_valid-HoldsPeers r c t none e v h = h
add_valid-HoldsPeers r c t (some n) e v h = record {
  peers = λ k x found. elim (Bool-cases (c.stable_id == k)) [
    | inl same ↦
        let new : record c { port = whole n; seen_at = t } ≡ x =
          ground
            (arith, lookup-put c.stable_id k (record c { port = whole n; seen_at = t }) r.items) in
        subst (IsPeer r.self_id k) new (record {
          own_key = (eq_iff c.stable_id k).0 same;
          valid = valid_again c r.self_id n t e v;
          port_number = n;
          at_port = refl;
        })
    | inr apart ↦ h.peers k x (
        ground (arith, lookup-put c.stable_id k (record c { port = whole n; seen_at = t }) r.items))
  ];
}

add_checked-HoldsPeers :
    {F : Type 0} (r : DiscoveryRegistry F) (c : DiscoveryCandidate F) (t : F)
    (m : Result (Unit {0}))
    → validate_candidate c r.self_id ≡ m
    → HoldsPeers r
    → HoldsPeers (add_checked r c t m).1
add_checked-HoldsPeers r c t (err e) v h = h
add_checked-HoldsPeers r c t (ok u) v h =
    add_valid-HoldsPeers r c t (normalize_port c.port) refl v h

-- A call of a method that changes the registry.
pub data Event (F : Type 0) : Type 0 where
  adds : DiscoveryCandidate F → F → Event F
  removes : String → Event F
  expires : F → Event F

pub handle :
    {F : Type 0} ⦃fl : Floats F⦄ → (F → F → F) → DiscoveryRegistry F → Event F → DiscoveryRegistry F
handle sub r (adds c t) = (add r c t).1
handle sub r (removes k) = remove r k
handle sub r (expires t) = (expire sub r t).1

pub handle_all :
    {F : Type 0} ⦃fl : Floats F⦄
    → (F → F → F)
    → DiscoveryRegistry F
    → List (Event F)
    → DiscoveryRegistry F
handle_all sub r [] = r
handle_all sub r (e ∷ l) = handle_all sub (handle sub r e) l

handle-HoldsPeers :
    {F : Type 0} ⦃fl : Floats F⦄ (sub : F → F → F) (r : DiscoveryRegistry F) (e : Event F)
    → HoldsPeers r
    → HoldsPeers (handle sub r e)
unfolding handle add remove expire
handle-HoldsPeers sub r (adds c t) h =
    add_checked-HoldsPeers r c t (validate_candidate c r.self_id) refl h
handle-HoldsPeers sub r (removes j) h = record {
  peers = λ k x found. h.peers k x (ground (arith, lookup-erase j k r.items));
}
handle-HoldsPeers sub r (expires t) h = record {
  peers = λ k x found. h.peers k x (expire-lookup sub r t k x found).0;
}

-- If every item of a discovery registry is a valid candidate other than the node itself, under its
-- own id and with a port from 1 to 65535, this holds after any calls of `add`, `remove` and
-- `expire`.
pub handle_all-HoldsPeers :
    {F : Type 0} ⦃fl : Floats F⦄ (sub : F → F → F) (r : DiscoveryRegistry F)
    (events : List (Event F))
    → HoldsPeers r
    → HoldsPeers (handle_all sub r events)
unfolding handle_all
handle_all-HoldsPeers sub r [] h = h
handle_all-HoldsPeers sub r (e ∷ l) h =
    handle_all-HoldsPeers sub (handle sub r e) l (handle-HoldsPeers sub r e h)
