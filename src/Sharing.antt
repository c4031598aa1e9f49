-- ===== src/Sharing.antt =====
-- `CapabilityShare` of src/expra_connect/sharing/capabilities.py. A handler is a number that stands
-- for the object, since the code compares handlers by identity only. `request` runs the handler
-- outside the lock: what the handler and other threads do meanwhile is an argument.
pub mod Fence
use Prim.Native.Char.{code}
use Prim.Native.String.count
use Prim.Native.String as Str
use expra_connect.Prelude.{
  ℕ, suc, ◌+◌, String, string_eq, pair_eq, ℕ_eq, ◌==◌, Bool, true, false, not, ◌&&◌, ◌||◌, Option,
  none, some, Result, ok, err, value_error, type_error, permission_error, handler_error, ◌>>=◌,
  ◌>>◌, raise_if, List, [], ◌∷◌, Dict, lookup, put, erase, member, contains, insert, filter, ltb,
  leb, if◌then◌else◌,
}
use expra_connect.Identity.{NodeId}

-- `str.isspace` on one character
unfoldable pub is_space : ℕ → Bool
is_space c =
    (leb 9 c && leb c 13)
    || (leb 28 c && leb c 32)
    || (leb 0x2000 c && leb c 0x200a)
    || contains c (0x85 ∷ 0xa0 ∷ 0x1680 ∷ 0x2028 ∷ 0x2029 ∷ 0x202f ∷ 0x205f ∷ 0x3000 ∷ [])

-- `not s.strip()`
unfoldable pub is_blank : String → Bool
is_blank String.[] = true
is_blank (String.◌∷◌ c s) = is_space (code c) && is_blank s

-- `validate_capability_id`; the argument is none where it is not a `str`
unfoldable pub validate_capability_id : Option String → Result (Unit {0})
validate_capability_id none = err (type_error "capability must be a string")
validate_capability_id (some c) =
    raise_if (is_blank c || ltb 128 (Str.count c)) (value_error "invalid capability")

pub record CapabilityShare : Type 0 where
  pub handlers : Dict String ℕ
  pub allowed : Dict NodeId (List String)
  pub grant_generations : Dict (NodeId × String) ℕ
  pub next_generation : ℕ

abbrev pub empty_share : CapabilityShare
empty_share = record { handlers = []; allowed = []; grant_generations = []; next_generation = 0 }

unfoldable pub register : CapabilityShare → Option String → ℕ → Result CapabilityShare
register s none handler = err (type_error "capability must be a string")
register s (some c) handler = do
  validate_capability_id (some c)
  raise_if (member c s.handlers) (value_error "invalid or duplicate capability")
  ok (record s { handlers = put c handler s.handlers })

-- `self._allowed.setdefault(peer_id, set())`
abbrev pub or_empty : Option (List String) → List String
or_empty none = []
or_empty (some l) = l

unfoldable pub allow : CapabilityShare → NodeId → String → Result CapabilityShare
allow s peer c = do
  validate_capability_id (some c)
  raise_if (not (member c s.handlers)) (value_error "unknown capability")
  let allowed = or_empty (lookup peer s.allowed)
  if contains c allowed
      then ok s
      else ok (record s {
        allowed = put peer (insert c allowed) s.allowed;
        next_generation = s.next_generation + 1;
        grant_generations = put (peer, c) (s.next_generation + 1) s.grant_generations;
      })

-- the sets after `discard`, where an empty one is dropped
abbrev store_allowed : NodeId → List String → Dict NodeId (List String) → Dict NodeId (List String)
store_allowed peer [] d = erase peer d
store_allowed peer (c ∷ l) d = put peer (c ∷ l) d

abbrev without : String → List String → List String
without c = filter (λ x. not (x == c))

abbrev revoked : CapabilityShare → NodeId → String → Option (List String) → CapabilityShare
revoked s peer c none = s
revoked s peer c (some allowed) = record s {
  allowed = store_allowed peer (without c allowed) s.allowed;
  grant_generations = erase (peer, c) s.grant_generations;
}

unfoldable pub revoke : CapabilityShare → NodeId → String → Result CapabilityShare
revoke s peer c = do validate_capability_id (some c); ok (revoked s peer c (lookup peer s.allowed))

unfoldable pub erase_all :
    NodeId → List String → Dict (NodeId × String) ℕ → Dict (NodeId × String) ℕ
erase_all peer [] d = d
erase_all peer (c ∷ l) d = erase_all peer l (erase (peer, c) d)

abbrev revoked_peer : CapabilityShare → NodeId → Option (List String) → CapabilityShare
revoked_peer s peer none = s
revoked_peer s peer (some allowed) = record s {
  allowed = erase peer s.allowed;
  grant_generations = erase_all peer allowed s.grant_generations;
}

unfoldable pub revoke_peer : CapabilityShare → NodeId → CapabilityShare
revoke_peer s peer = revoked_peer s peer (lookup peer s.allowed)

unfoldable pub clear_grants : CapabilityShare → CapabilityShare
clear_grants s = record s { allowed = []; grant_generations = [] }

abbrev not_authorized : {A : Type 0} → Result A
not_authorized = err (permission_error "capability is not authorized")

abbrev pub authorized : Option ℕ → Option (List String) → Option ℕ → String → Result (ℕ × ℕ)
authorized none allowed generation c = not_authorized
authorized (some h) none generation c = not_authorized
authorized (some h) (some l) none c = not_authorized
authorized (some h) (some l) (some g) c = if contains c l then ok (h, g) else not_authorized

-- the first locked part of `request`: the handler and the generation of the grant
unfoldable pub begin_request : CapabilityShare → NodeId → String → Result (ℕ × ℕ)
begin_request s peer c = do
  validate_capability_id (some c)
  authorized (lookup c s.handlers) (lookup peer s.allowed) (lookup (peer, c) s.grant_generations) c

abbrev is_still : Option ℕ → ℕ → Bool
is_still none n = false
is_still (some m) n = m == n

abbrev pub still_authorized : CapabilityShare → NodeId → String → ℕ → ℕ → Bool
still_authorized s peer c handler generation =
    contains c (or_empty (lookup peer s.allowed))
    && is_still (lookup (peer, c) s.grant_generations) generation
    && is_still (lookup c s.handlers) handler

-- the second locked part: the result is given out only under the grant that was there at first
unfoldable pub finish_request :
    {R : Type 0} → CapabilityShare → NodeId → String → ℕ → ℕ → R → Result R
finish_request s peer c handler generation result =
    if still_authorized s peer c handler generation
    then ok result
    else err (permission_error "capability authorization changed during request")

abbrev finish_run :
    {R : Type 0} → NodeId → String → ℕ → ℕ → Result R × CapabilityShare → Result R × CapabilityShare
finish_run peer c handler generation (err e, s) =
    (err (handler_error "capability handler failed"), s)
finish_run peer c handler generation (ok result, s) =
    (finish_request s peer c handler generation result, s)

abbrev run_request :
    {R : Type 0}
    → CapabilityShare
    → NodeId
    → String
    → (ℕ → CapabilityShare → Result R × CapabilityShare)
    → Result (ℕ × ℕ)
    → Result R × CapabilityShare
run_request s peer c run (err e) = (err e, s)
run_request s peer c run (ok (handler, generation)) =
    finish_run peer c handler generation (run handler s)

-- `run` is the handler with all that happens to the share while it runs.
unfoldable pub request :
    {R : Type 0}
    → CapabilityShare
    → NodeId
    → String
    → (ℕ → CapabilityShare → Result R × CapabilityShare)
    → Result R × CapabilityShare
request s peer c run = run_request s peer c run (begin_request s peer c)
