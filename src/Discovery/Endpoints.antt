-- ===== src/Discovery/Endpoints.antt =====
-- `EndpointCandidate` of src/expra_connect/discovery/models.py, and its ranking in
-- src/expra_connect/discovery/candidates.py.
pub mod Choice
use Prim.Native.Nat.{Ordering}
use Prim.Native.String.{compare}
use expra_connect.Prelude.{
  ℕ, ◌+◌, String, string_eq, ◌==◌, Bool, true, false, not, ◌&&◌, ◌||◌, Option, none, some, Result,
  ok, err, value_error, ◌>>=◌, ◌>>◌, raise_if, List, [], ◌∷◌, if◌then◌else◌, ltb, leb, nat_eq,
  filter, ℤ, ltb_int, eq_int,
}
use expra_connect.Sharing.{is_blank}

pub data EndpointSource : Type 0 where
  configured ipv4 ipv6 vpn discovery : EndpointSource

pub record EndpointCandidate (F : Type 0) : Type 0 where
  pub address : String
  pub port : ℕ
  pub source : EndpointSource
  pub validation : String
  pub priority : ℤ
  pub last_success : Option F
  pub last_failure : Option F

-- `__post_init__`, for a port that is not negative
unfoldable pub init_endpoint : {F : Type 0} → EndpointCandidate F → Result (EndpointCandidate F)
init_endpoint e = do
  raise_if (is_blank e.address) (value_error "endpoint address must not be empty")
  raise_if (not (leb 1 e.port && leb e.port 65535)) (value_error "endpoint port is invalid")
  raise_if
      (not
        (e.validation == "validated" || e.validation == "unvalidated" || e.validation == "invalid"))
      (value_error "endpoint validation is invalid")
  ok e

unfoldable pub source_rank : EndpointSource → ℕ
source_rank configured = 0
source_rank ipv4 = 1
source_rank ipv6 = 2
source_rank vpn = 3
source_rank discovery = 4

-- 0 if there is a value, 1 if there is none
abbrev pub zero_if : {A : Type 0} → Option A → ℕ
zero_if none = 1
zero_if (some a) = 0

abbrev pub one_if : {A : Type 0} → Option A → ℕ
one_if none = 0
one_if (some a) = 1

pub record EndpointRank : Type 0 where
  pub success_rank : ℕ
  pub priority : ℤ
  pub source_failure : ℕ
  pub address : String
  pub port : ℕ

unfoldable pub endpoint_rank : {F : Type 0} → EndpointCandidate F → EndpointRank
endpoint_rank e = record {
  success_rank = zero_if e.last_success;
  priority = e.priority;
  source_failure = source_rank e.source + one_if e.last_failure;
  address = e.address;
  port = e.port;
}

abbrev pub ltb_text : String → String → Bool
ltb_text a b = elim (compare a b) [ Ordering.lt ↦ true | _ ↦ false ]

-- `<` of tuples: the first place where they differ decides
unfoldable pub ltb_rank : EndpointRank → EndpointRank → Bool
ltb_rank a b =
    ltb a.success_rank b.success_rank
    || (nat_eq a.success_rank b.success_rank
        && (ltb_int a.priority b.priority
            || (eq_int a.priority b.priority
                && (ltb a.source_failure b.source_failure
                    || (nat_eq a.source_failure b.source_failure
                        && (ltb_text a.address b.address
                            || (a.address == b.address && ltb a.port b.port)))))))

module _ {F : Type 0} where
  -- min(best and the rest, key=endpoint_rank): the first of the least
  unfoldable pub first_ranked :
      EndpointCandidate F → List (EndpointCandidate F) → EndpointCandidate F
  first_ranked best [] = best
  first_ranked best (e ∷ l) =
      first_ranked (if ltb_rank (endpoint_rank e) (endpoint_rank best) then e else best) l

  abbrev pub is_usable : EndpointCandidate F → Bool
  is_usable e = not (e.validation == "invalid")

  abbrev pub prefer : List (EndpointCandidate F) → Result (EndpointCandidate F)
  prefer [] = err (value_error "no route candidates")
  prefer (e ∷ l) = ok (first_ranked e l)

  unfoldable pub preferred_endpoint : List (EndpointCandidate F) → Result (EndpointCandidate F)
  preferred_endpoint endpoints = prefer (filter is_usable endpoints)
