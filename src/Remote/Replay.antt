-- ===== src/Remote/Replay.antt =====
-- `ReplayCache` of src/expra_connect/remote/wire_protocol.py. Each of its two records of what was
-- seen is a dict with a heap of its times; as the heap is read at its least time only, it is a list
-- in the order of the times. `sub` is the subtraction of times.
pub mod Rejected
pub mod Bounded
use expra_connect.Prelude.{
  ℕ, String, string_eq, pair_eq, Eq, ◌==◌, Bool, true, false, not, Option, none, some, List, [],
  ◌∷◌, Dict, lookup, put, erase, member, length, leb, if◌then◌else◌, Floats,
}
use expra_connect.Identity.{NodeId}

-- what was seen, with when, and the heap of the times
pub record Seen (K F : Type 0) : Type 0 where
  pub seen : Dict K F
  pub expirations : List (F × K)

-- a node, a request and a nonce
abbrev pub ReplayKey : Type 0
ReplayKey = NodeId × (String × String)

pub record ReplayCache (F : Type 0) : Type 0 where
  pub ttl : F
  pub max_entries : ℕ
  pub requests : Seen ReplayKey F
  pub request_ids : Seen (NodeId × String) F

unfoldable pub init_replay : {F : Type 0} → F → ℕ → ReplayCache F
init_replay ttl max_entries = record {
  ttl = ttl;
  max_entries = max_entries;
  requests = record { seen = []; expirations = [] };
  request_ids = record { seen = []; expirations = [] };
}

module _ {K F : Type 0} ⦃e : Eq K⦄ ⦃fl : Floats F⦄ where
  -- heapq.heappush
  unfoldable pub heappush : F × K → List (F × K) → List (F × K)
  heappush x [] = x ∷ []
  heappush x (h ∷ l) = let rest = heappush x l in if fl.lt x.0 h.0 then x ∷ h ∷ l else h ∷ rest

  -- one of the two loops of `_prune`: what is left of the record
  unfoldable pub prune_seen : (F → F → F) → F → F → List (F × K) → Dict K F → Seen K F
  prune_seen sub ttl now [] d = record { seen = d; expirations = [] }
  prune_seen sub ttl now ((t, k) ∷ l) d =
      let rest = prune_seen sub ttl now l (erase k d) in
      if fl.lt ttl (sub now t) then rest else record { seen = d; expirations = (t, k) ∷ l }

  abbrev pub pruned : (F → F → F) → F → F → Seen K F → Seen K F
  pruned sub ttl now s = prune_seen sub ttl now s.expirations s.seen

  -- the test and the store, once the record is pruned
  unfoldable pub record_seen : ℕ → K → F → Seen K F → Bool × Seen K F
  record_seen max_entries key seen_at s =
      if member key s.seen
      then (false, s)
      else if leb max_entries (length s.seen)
      then (false, s)
      else (
        true,
        record {
          seen = put key seen_at s.seen;
          expirations = heappush (seen_at, key) s.expirations;
        },
      )

module _ {F : Type 0} ⦃fl : Floats F⦄ where
  unfoldable pub check_and_record :
      (F → F → F) → ReplayCache F → NodeId → String → String → F → Bool × ReplayCache F
  check_and_record sub c node_id request_id nonce seen_at =
      let (fresh, s) =
        record_seen c.max_entries (node_id, (request_id, nonce)) seen_at
          (pruned sub c.ttl seen_at c.requests) in
      (fresh, record c { requests = s; request_ids = pruned sub c.ttl seen_at c.request_ids })

  unfoldable pub check_and_record_request_id :
      (F → F → F) → ReplayCache F → NodeId → String → F → Bool × ReplayCache F
  check_and_record_request_id sub c node_id request_id seen_at =
      let (fresh, s) =
        record_seen c.max_entries (node_id, request_id) seen_at
          (pruned sub c.ttl seen_at c.request_ids) in
      (fresh, record c { requests = pruned sub c.ttl seen_at c.requests; request_ids = s })
