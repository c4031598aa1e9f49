-- ===== src/Remote/Replay/Bounded.antt =====
-- The size of the `ReplayCache` of src/expra_connect/remote/wire_protocol.py.
use expra_connect.Prelude.{
  ℕ, ◌+◌, ◌≤◌, string_eq, pair_eq, Eq, List, [], ◌∷◌, Dict, put, erase, length, Floats, arith,
}
use expra_connect.Remote.Replay.{
  Seen, ReplayCache, prune_seen, record_seen, check_and_record, check_and_record_request_id,
}
use expra_connect.Remote.Replay.Rejected.{Check, request, request_id, check, checks}

module _ {K F : Type 0} ⦃e : Eq K⦄ ⦃fl : Floats F⦄ where
  length-put-le : (k : K) (v : F) (d : Dict K F) → length (put k v d) ≤ length d + 1
  unfolding put
  length-put-le k v [] = ground arith
  length-put-le k v ((j, w) ∷ d) = ground (arith, length-put-le k v d)

  length-erase-le : (k : K) (d : Dict K F) → length (erase k d) ≤ length d
  unfolding erase
  length-erase-le k [] = ground arith
  length-erase-le k ((j, w) ∷ d) = ground (arith, length-erase-le k d)

  prune_seen-le :
      (sub : F → F → F) (ttl now : F) (l : List (F × K)) (d : Dict K F)
      → length (prune_seen sub ttl now l d).seen ≤ length d
  unfolding prune_seen
  prune_seen-le sub ttl now [] d = omega arith
  prune_seen-le sub ttl now ((t, j) ∷ l) d =
      ground (arith, prune_seen-le sub ttl now l (erase j d), length-erase-le j d)

  record_seen-le :
      (n : ℕ) (key : K) (t : F) (s : Seen K F)
      → length s.seen ≤ n
      → length (record_seen n key t s).1.seen ≤ n
  unfolding record_seen
  record_seen-le n key t s h = ground (arith, h, length-put-le key t s.seen)

module _ {F : Type 0} ⦃fl : Floats F⦄ where
  -- At most as many entries of each kind as the cache was made for.
  pub record IsBounded (c : ReplayCache F) : Type 0 where
    pub requests : length c.requests.seen ≤ c.max_entries
    pub request_ids : length c.request_ids.seen ≤ c.max_entries

  check-IsBounded :
      (sub : F → F → F) (c : ReplayCache F) (x : Check F) → IsBounded c → IsBounded (check sub c x)
  unfolding check check_and_record check_and_record_request_id
  check-IsBounded sub c (request node_id i nonce t) b =
      let a = prune_seen-le sub c.ttl t c.requests.expirations c.requests.seen in
      let z = prune_seen-le sub c.ttl t c.request_ids.expirations c.request_ids.seen in
      record {
        requests = record_seen-le c.max_entries _ t _ (omega (arith, a, b.requests));
        request_ids = omega (arith, z, b.request_ids);
      }
  check-IsBounded sub c (request_id node_id i t) b =
      let a = prune_seen-le sub c.ttl t c.requests.expirations c.requests.seen in
      let z = prune_seen-le sub c.ttl t c.request_ids.expirations c.request_ids.seen in
      record {
        requests = omega (arith, a, b.requests);
        request_ids = record_seen-le c.max_entries _ t _ (omega (arith, z, b.request_ids));
      }

  -- If a replay cache holds at most as many entries of each kind as it was made for, it does so
  -- after any checks.
  pub checks-IsBounded :
      (sub : F → F → F) (c : ReplayCache F) (l : List (Check F))
      → IsBounded c
      → IsBounded (checks sub c l)
  unfolding checks
  checks-IsBounded sub c [] b = b
  checks-IsBounded sub c (x ∷ l) b =
      checks-IsBounded sub (check sub c x) l (check-IsBounded sub c x b)
