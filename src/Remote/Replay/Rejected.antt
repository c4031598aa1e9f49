-- ===== src/Remote/Replay/Rejected.antt =====
-- What src/expra_connect/remote/wire_protocol.py rejects as replayed.
use expra_connect.Prelude.{
  ℕ, ◌≡◌, refl, String, string_eq, pair_eq, Eq, ◌==◌, true, false, Option, none, some, List, [],
  ◌∷◌, Dict, lookup, put, erase, member, length, leb, All, if◌then◌else◌, Floats, arith, Bool-cases,
  inl, inr, lookup-put, lookup-erase, same_refl,
}
use expra_connect.Identity.{NodeId}
use expra_connect.Remote.Replay.{
  Seen, ReplayKey, ReplayCache, heappush, prune_seen, pruned, record_seen, check_and_record,
  check_and_record_request_id,
}

abbrev pub stored : {F : Type 0} → Option F → List F
stored none = []
stored (some t) = t ∷ []

module _ {K F : Type 0} ⦃e : Eq K⦄ ⦃fl : Floats F⦄ where
  -- the times of the entries of a key
  abbrev pub times : K → List (F × K) → List F
  times k [] = []
  times k ((t, j) ∷ l) = let rest = times k l in if j == k then t ∷ rest else rest

  -- The heap has one entry for a key that was seen, with its time, and none for another key.
  pub record IsIndexed (k : K) (s : Seen K F) : Type 0 where
    pub indexed : times k s.expirations ≡ stored (lookup k s.seen)

  times-heappush_other :
      (k : K) (x : F × K) (l : List (F × K))
      → (x.1 == k) ≡ false
      → times k (heappush x l) ≡ times k l
  unfolding heappush
  times-heappush_other k x [] h = ground arith
  times-heappush_other k x (y ∷ l) h = ground (arith, times-heappush_other k x l h)

  times-heappush_new :
      (k : K) (x : F × K) (l : List (F × K))
      → (x.1 == k) ≡ true
      → times k l ≡ []
      → times k (heappush x l) ≡ x.0 ∷ []
  unfolding heappush
  times-heappush_new k x [] h n = ground arith
  times-heappush_new k x (y ∷ l) h n = ground (arith, times-heappush_new k x l h)

  popped-IsIndexed :
      (k j : K) (t : F) (l : List (F × K)) (d : Dict K F)
      → IsIndexed k (record { seen = d; expirations = (t, j) ∷ l })
      → IsIndexed k (record { seen = erase j d; expirations = l })
  popped-IsIndexed k j t l d i = record {
    indexed = ground (arith, i.indexed, lookup-erase j k d, e.same_iff j k);
  }

  prune_seen-IsIndexed :
      (sub : F → F → F) (ttl now : F) (k : K) (l : List (F × K)) (d : Dict K F)
      → IsIndexed k (record { seen = d; expirations = l })
      → IsIndexed k (prune_seen sub ttl now l d)
  unfolding prune_seen
  prune_seen-IsIndexed sub ttl now k [] d i = i
  prune_seen-IsIndexed sub ttl now k ((t, j) ∷ l) d i = elim (Bool-cases (fl.lt ttl (sub now t))) [
    | inr f ↦ rw f i
    | inl old ↦
        rw old (prune_seen-IsIndexed sub ttl now k l (erase j d) (popped-IsIndexed k j t l d i))
  ]

  pushed-IsIndexed :
      (key k : K) (t : F) (s : Seen K F)
      → member key s.seen ≡ false
      → IsIndexed k s
      → IsIndexed k
          (record { seen = put key t s.seen; expirations = heappush (t, key) s.expirations })
  pushed-IsIndexed key k t s new i = elim (Bool-cases (key == k)) [
    | inr other ↦ record {
      indexed = ground (
        arith,
        i.indexed,
        other,
        times-heappush_other k (t, key) s.expirations other,
        lookup-put key k t s.seen,
      );
    }
    | inl own ↦
        let same : key ≡ k = (e.same_iff key k).0 own in
        let gone : lookup k s.seen ≡ none = ground (arith, new, same) in
        record {
          indexed = ground (
            arith,
            i.indexed,
            own,
            gone,
            times-heappush_new k (t, key) s.expirations own,
            lookup-put key k t s.seen,
          );
        }
  ]

  record_seen-IsIndexed :
      (n : ℕ) (key k : K) (t : F) (s : Seen K F)
      → IsIndexed k s
      → IsIndexed k (record_seen n key t s).1
  unfolding record_seen
  record_seen-IsIndexed n key k t s i = elim (Bool-cases (member key s.seen)) [
    | inl old ↦ rw old i
    | inr new ↦ elim (Bool-cases (leb n (length s.seen))) [
      | inl full ↦ rw new (rw full i)
      | inr room ↦ rw new (rw room (pushed-IsIndexed key k t s new i))
    ]
  ]

  -- A key stays as long as its time is not too long ago.
  prune_seen_keeps :
      (sub : F → F → F) (ttl now : F) (k : K) (t : F) (l : List (F × K)) (d : Dict K F)
      → IsIndexed k (record { seen = d; expirations = l })
      → lookup k d ≡ some t
      → fl.lt ttl (sub now t) ≡ false
      → lookup k (prune_seen sub ttl now l d).seen ≡ some t
  unfolding prune_seen
  prune_seen_keeps sub ttl now k t [] d i h young = h
  prune_seen_keeps sub ttl now k t ((u, j) ∷ l) d i h young =
      elim (Bool-cases (fl.lt ttl (sub now u))) [
        | inr f ↦ rw f h
        | inl old ↦ rw old (
            prune_seen_keeps sub ttl now k t l (erase j d) (popped-IsIndexed k j u l d i)
              (ground (arith, i.indexed, h, lookup-erase j k d, e.same_iff j k, old, young)) young)
      ]

  record_seen_keeps :
      (n : ℕ) (key k : K) (u t : F) (s : Seen K F)
      → lookup k s.seen ≡ some t
      → lookup k (record_seen n key u s).1.seen ≡ some t
  unfolding record_seen
  record_seen_keeps n key k u t s h = elim (Bool-cases (key == k)) [
    | inr other ↦ ground (arith, h, other, lookup-put key k u s.seen)
    | inl own ↦
        let same : key ≡ k = (e.same_iff key k).0 own in
        let known : member key s.seen ≡ true = ground (arith, h, same) in ground (arith, h, known)
  ]

  record_seen_fresh :
      (n : ℕ) (key : K) (u : F) (s : Seen K F)
      → (record_seen n key u s).0 ≡ true
      → lookup key (record_seen n key u s).1.seen ≡ some u
  unfolding record_seen
  record_seen_fresh n key u s h = ground (arith, h, lookup-put key key u s.seen, same_refl key)

  record_seen_known :
      (n : ℕ) (key : K) (u t : F) (s : Seen K F)
      → lookup key s.seen ≡ some t
      → (record_seen n key u s).0 ≡ false
  unfolding record_seen
  record_seen_known n key u t s h = ground (arith, h)

-- A call of one of the two checks.
pub data Check (F : Type 0) : Type 0 where
  request : NodeId → String → String → F → Check F
  request_id : NodeId → String → F → Check F

abbrev pub time_of : {F : Type 0} → Check F → F
time_of (request node_id i nonce t) = t
time_of (request_id node_id i t) = t

module _ {F : Type 0} ⦃fl : Floats F⦄ where
  unfoldable pub check : (F → F → F) → ReplayCache F → Check F → ReplayCache F
  check sub c (request node_id i nonce t) = (check_and_record sub c node_id i nonce t).1
  check sub c (request_id node_id i t) = (check_and_record_request_id sub c node_id i t).1

  unfoldable pub checks : (F → F → F) → ReplayCache F → List (Check F) → ReplayCache F
  checks sub c [] = c
  checks sub c (x ∷ l) = checks sub (check sub c x) l

  -- Both records are indexed by their heaps.
  pub record IsSound (c : ReplayCache F) : Type 0 where
    pub requests : (k : ReplayKey) → IsIndexed k c.requests
    pub request_ids : (k : NodeId × String) → IsIndexed k c.request_ids

  pub check-IsSound :
      (sub : F → F → F) (c : ReplayCache F) (x : Check F) → IsSound c → IsSound (check sub c x)
  unfolding check check_and_record check_and_record_request_id
  check-IsSound sub c (request node_id i nonce t) s = record {
    requests = λ k.
        record_seen-IsIndexed c.max_entries (node_id, (i, nonce)) k t _
          (prune_seen-IsIndexed sub c.ttl t k c.requests.expirations c.requests.seen
            (s.requests k));
    request_ids = λ k.
        prune_seen-IsIndexed sub c.ttl t k c.request_ids.expirations c.request_ids.seen
          (s.request_ids k);
  }
  check-IsSound sub c (request_id node_id i t) s = record {
    requests = λ k.
        prune_seen-IsIndexed sub c.ttl t k c.requests.expirations c.requests.seen (s.requests k);
    request_ids = λ k.
        record_seen-IsIndexed c.max_entries (node_id, i) k t _
          (prune_seen-IsIndexed sub c.ttl t k c.request_ids.expirations c.request_ids.seen
            (s.request_ids k));
  }

  check_ttl : (sub : F → F → F) (c : ReplayCache F) (x : Check F) → (check sub c x).ttl ≡ c.ttl
  unfolding check check_and_record check_and_record_request_id
  check_ttl sub c (request node_id i nonce t) = refl
  check_ttl sub c (request_id node_id i t) = refl

  check_keeps :
      (sub : F → F → F) (c : ReplayCache F) (x : Check F) (k : ReplayKey) (t : F)
      → IsSound c
      → lookup k c.requests.seen ≡ some t
      → fl.lt c.ttl (sub (time_of x) t) ≡ false
      → lookup k (check sub c x).requests.seen ≡ some t
  unfolding check check_and_record check_and_record_request_id
  check_keeps sub c (request node_id i nonce u) k t s h young =
      record_seen_keeps c.max_entries (node_id, (i, nonce)) k u t _
        (prune_seen_keeps sub c.ttl u k t c.requests.expirations c.requests.seen (s.requests k) h
          young)
  check_keeps sub c (request_id node_id i u) k t s h young =
      prune_seen_keeps sub c.ttl u k t c.requests.expirations c.requests.seen (s.requests k) h young

  -- the calls are not later than `t` by more than the time to live
  abbrev pub Within : (F → F → F) → F → F → List (Check F) → Type 0
  Within sub ttl t = All λ x. fl.lt ttl (sub (time_of x) t) ≡ false

  checks_keep :
      (sub : F → F → F) (c : ReplayCache F) (l : List (Check F)) (k : ReplayKey) (t u : F)
      → IsSound c
      → lookup k c.requests.seen ≡ some t
      → Within sub c.ttl t l
      → fl.lt c.ttl (sub u t) ≡ false
      → lookup k (pruned sub (checks sub c l).ttl u (checks sub c l).requests).seen ≡ some t
  unfolding checks
  checks_keep sub c [] k t u s h w young =
      prune_seen_keeps sub c.ttl u k t c.requests.expirations c.requests.seen (s.requests k) h young
  checks_keep sub c (x ∷ l) k t u s h w young =
      checks_keep sub (check sub c x) l k t u (check-IsSound sub c x s)
        (check_keeps sub c x k t s h w.0) (rw (check_ttl sub c x) w.1)
        (rw (check_ttl sub c x) young)

  -- From a replay cache whose records are indexed by their heaps: once a request is recorded as
  -- fresh, the same node, request and nonce are rejected after any further checks, as long as none
  -- of these and the repetition come later by more than the time to live.
  pub replay_is_rejected :
      (sub : F → F → F) (c : ReplayCache F) (node_id : NodeId) (i nonce : String) (t u : F)
      (l : List (Check F))
      → IsSound c
      → (check_and_record sub c node_id i nonce t).0 ≡ true
      → Within sub c.ttl t l
      → fl.lt c.ttl (sub u t) ≡ false
      → (check_and_record sub
          (checks sub (check_and_record sub c node_id i nonce t).1 l)
          node_id
          i
          nonce
          u).0
        ≡ false
  unfolding check_and_record check
  replay_is_rejected sub c node_id i nonce t u l s fresh w young =
      let first = (check_and_record sub c node_id i nonce t).1 in
      record_seen_known (checks sub first l).max_entries (node_id, (i, nonce)) u t
        (pruned sub (checks sub first l).ttl u (checks sub first l).requests)
        (checks_keep sub first l (node_id, (i, nonce)) t u
          (check-IsSound sub c (request node_id i nonce t) s)
          (record_seen_fresh c.max_entries (node_id, (i, nonce)) t _ fresh) w young)
