-- ===== src/Discovery.antt =====
-- src/expra_connect/discovery/candidates.py: candidates, the choice of an address, and the registry
-- with its time to live. `ipaddress.ip_address` is an argument.
pub mod Live
pub mod Endpoints
use Prim.Native.Char.{code}
use Prim.Native.String as Str
use expra_connect.Prelude.{
  ℕ, ◌+◌, String, string_eq, option_eq, ◌==◌, Bool, true, false, not, ◌&&◌, ◌||◌, Option, none,
  some, Result, ok, err, value_error, ◌>>=◌, ◌>>◌, raise_if, List, [], ◌∷◌, map, Dict, put, erase,
  values, keys, if◌then◌else◌, ltb, leb, any, filter, Floats, Eq,
}
use expra_connect.Sharing.{is_blank}

-- A value that is used as a port: a whole number from 0 up, as an int or a float, or anything else.
pub data PortValue : Type 0 where
  whole : ℕ → PortValue
  unfit : PortValue

unfoldable pub normalize_port : PortValue → Option ℕ
normalize_port unfit = none
normalize_port (whole n) = if not (leb 1 n && leb n 65535) then none else some n

pub record DiscoveryCandidate (F : Type 0) : Type 0 where
  pub stable_id : String
  pub addresses : List String
  pub port : PortValue
  pub seen_at : F

abbrev is_empty : {A : Type 0} → List A → Bool
is_empty [] = true
is_empty (x ∷ l) = false

abbrev is_none : {A : Type 0} → Option A → Bool
is_none none = true
is_none (some a) = false

-- a candidate whose id and addresses are texts
unfoldable pub validate_candidate :
    {F : Type 0} → DiscoveryCandidate F → Option String → Result (Unit {0})
validate_candidate c self_id = do
  raise_if (c.stable_id == "" || c.stable_id == "local") (value_error "invalid discovery identity")
  raise_if (self_id == some c.stable_id) (value_error "self discovery is not a peer")
  raise_if (is_none (normalize_port c.port) || is_empty c.addresses)
      (value_error "invalid discovery endpoint")
  raise_if (any is_blank c.addresses) (value_error "invalid discovery endpoint")

-- A parsed address: whether it is a loopback address, and its value if it is of IPv4.
pub record IpAddress : Type 0 where
  pub is_loopback : Bool
  pub ipv4 : Option ℕ

-- `parsed in network`, for the network of `size` addresses from `base` on
abbrev pub is_in : ℕ → ℕ → ℕ → Bool
is_in n base size = leb base n && ltb n (base + size)

-- the rank among 192.168.0.0/16, 172.16.0.0/12, 10.0.0.0/8 and 100.64.0.0/10
unfoldable pub network_rank : ℕ → ℕ
network_rank n =
    if is_in n 0xc0a80000 0x10000
    then 0
    else if is_in n 0xac100000 0x100000
    then 1
    else if is_in n 0x0a000000 0x1000000
    then 2
    else if is_in n 0x64400000 0x400000
    then 3
    else 4

abbrev rank_ipv4 : Option ℕ → ℕ
rank_ipv4 none = 4
rank_ipv4 (some n) = network_rank n

abbrev rank_parsed : Option IpAddress → ℕ
rank_parsed none = 5
rank_parsed (some a) = if a.is_loopback then 4 else rank_ipv4 a.ipv4

-- `_address_rank`; the parser gives none where it raises
unfoldable pub address_rank : (String → Option IpAddress) → String → ℕ
address_rank parse address = rank_parsed (parse address)

-- min(best and the rest, key=key): the first of the least
unfoldable pub first_least : (String → ℕ) → String → List String → String
first_least key best [] = best
first_least key best (a ∷ l) = first_least key (if ltb (key a) (key best) then a else best) l

unfoldable pub preferred_address : (String → Option IpAddress) → List String → Result String
preferred_address parse [] = err (value_error "no route candidates")
preferred_address parse (a ∷ l) = ok (first_least (address_rank parse) a l)

pub record DiscoveryRegistry (F : Type 0) : Type 0 where
  pub ttl : F
  pub self_id : Option String
  pub items : Dict String (DiscoveryCandidate F)

module _ {F : Type 0} where
  abbrev add_valid :
      DiscoveryRegistry F → DiscoveryCandidate F → F → Option ℕ → Bool × DiscoveryRegistry F
  add_valid r c clock none = (false, r)
  add_valid r c clock (some p) = (
    true,
    record r { items = put c.stable_id (record c { port = whole p; seen_at = clock }) r.items },
  )

  abbrev add_checked :
      DiscoveryRegistry F
      → DiscoveryCandidate F
      → F
      → Result (Unit {0})
      → Bool × DiscoveryRegistry F
  add_checked r c clock (err e) = (false, r)
  add_checked r c clock (ok u) = add_valid r c clock (normalize_port c.port)

  unfoldable pub add : DiscoveryRegistry F → DiscoveryCandidate F → F → Bool × DiscoveryRegistry F
  add r c clock = add_checked r c clock (validate_candidate c r.self_id)

  unfoldable pub remove : DiscoveryRegistry F → String → DiscoveryRegistry F
  remove r stable_id = record r { items = erase stable_id r.items }

  unfoldable pub erase_keys :
      List String → Dict String (DiscoveryCandidate F) → Dict String (DiscoveryCandidate F)
  erase_keys [] d = d
  erase_keys (k ∷ l) d = erase_keys l (erase k d)

  -- `sub` is the subtraction of times
  unfoldable pub expire :
      ⦃fl : Floats F⦄ → (F → F → F) → DiscoveryRegistry F → F → List String × DiscoveryRegistry F
  expire ⦃fl⦄ sub r current =
      let expired = keys (filter (λ p. fl.lt r.ttl (sub current p.1.seen_at)) r.items) in
      (expired, record r { items = erase_keys expired r.items })
