-- ===== src/Remote/Idempotency/Once.antt =====
-- How often an operation runs under the `IdempotencyCache` of
-- src/expra_connect/remote/wire_protocol.py.
use expra_connect.Prelude.{
  ◌≡◌, refl, String, string_eq, pair_eq, ◌==◌, Bool, false, ◌&&◌, Option, none, some, Result, ok,
  err, Error, idempotency_collision, [], ◌∷◌, Dict, lookup, length, leb, if◌then◌else◌, Floats,
  arith, Bool-cases, inl, inr, lookup-put, same_refl, pair_beq_iff,
}
use expra_connect.Remote.Idempotency.{
  IdempotencyEntry, IdempotencyKey, IdempotencyCache, owns, waits, is_complete, prune_entries,
  claim_at, claim, claimed, settled, saved_outcome, settle,
}

module _ {R F : Type 0} ⦃fl : Floats F⦄ where
  -- Parts of other runs: claims at times that are not late, and ends of runs of other keys.
  pub data Runs (key : IdempotencyKey) (late : F → Bool) (c : IdempotencyCache R F)
      : IdempotencyCache R F → Type 0 where
    here : Runs key late c c
    claims :
        {d : IdempotencyCache R F} (k : IdempotencyKey) (fingerprint : String) (now : F)
        → Runs key late c d
        → late now ≡ false
        → Runs key late c (claim d k fingerprint now).1
    settles :
        {d : IdempotencyCache R F} (k : IdempotencyKey) (outcome : Result R)
        (failure : Option Error)
        → Runs key late c d
        → (k == key) ≡ false
        → Runs key late c (settle d k outcome failure).1

  prune_entries_keeps :
      (now : F) (key : IdempotencyKey) (x : IdempotencyEntry R F)
      (d : Dict IdempotencyKey (IdempotencyEntry R F))
      → lookup key d ≡ some x
      → (is_complete x && fl.le x.expires_at now) ≡ false
      → lookup key (prune_entries now d) ≡ some x
  unfolding lookup prune_entries
  prune_entries_keeps now key x [] h young = h
  prune_entries_keeps now key x ((k, y) ∷ d) h young =
      ground (arith, prune_entries_keeps now key x d)

  claim_at_keeps :
      (c : IdempotencyCache R F) (key k : IdempotencyKey) (fingerprint : String) (now : F)
      (x : IdempotencyEntry R F) (o : Option (IdempotencyEntry R F))
      → lookup k c.entries ≡ o
      → lookup key c.entries ≡ some x
      → lookup key (claim_at c k fingerprint now o).1.entries ≡ some x
  claim_at_keeps c key k fingerprint now x (some y) e h = ground (arith, h)
  claim_at_keeps c key k fingerprint now x none e h = elim (Bool-cases (k == key)) [
    | inl own ↦
        let same : k ≡ key = (pair_beq_iff k key).0 own in absurd (ground (arith, e, h, same))
    | inr other ↦ elim (Bool-cases (leb c.max_entries (length c.entries))) [
      | inl full ↦ rw full h
      | inr room ↦
          rw room (ground (arith, h, other, lookup-put k key (claimed c fingerprint now) c.entries))
    ]
  ]

  claim_keeps :
      (c : IdempotencyCache R F) (key k : IdempotencyKey) (fingerprint : String) (now : F)
      (x : IdempotencyEntry R F)
      → lookup key c.entries ≡ some x
      → (is_complete x && fl.le x.expires_at now) ≡ false
      → lookup key (claim c k fingerprint now).1.entries ≡ some x
  unfolding claim
  claim_keeps c key k fingerprint now x h young =
      claim_at_keeps (record c { entries = prune_entries now c.entries }) key k fingerprint now x _
        refl (prune_entries_keeps now key x c.entries h young)

  settled_keeps :
      (c : IdempotencyCache R F) (key k : IdempotencyKey) (outcome : Result R)
      (x : IdempotencyEntry R F) (o : Option (IdempotencyEntry R F))
      → lookup key c.entries ≡ some x
      → (k == key) ≡ false
      → lookup key (settled c k outcome o).entries ≡ some x
  settled_keeps c key k outcome x none h other = h
  settled_keeps c key k outcome x (some y) h other =
      ground (arith, h, other, lookup-put k key (record y { outcome = some outcome }) c.entries)

  -- The entry of a key stays while no time is late for it.
  Runs-keep :
      (key : IdempotencyKey) (late : F → Bool) (c d : IdempotencyCache R F)
      (x : IdempotencyEntry R F)
      → ((now : F) → late now ≡ false → (is_complete x && fl.le x.expires_at now) ≡ false)
      → Runs key late c d
      → lookup key c.entries ≡ some x
      → lookup key d.entries ≡ some x
  unfolding settle
  Runs-keep key late c d x young here h = h
  Runs-keep key late c d x young (claims {d = m} k fingerprint now r l) h =
      claim_keeps m key k fingerprint now x (Runs-keep key late c m x young r h) (young now l)
  Runs-keep key late c d x young (settles {d = m} k outcome failure r other) h =
      settled_keeps m key k (saved_outcome outcome failure) x (lookup k m.entries)
        (Runs-keep key late c m x young r h) other

  claim_owns :
      (c : IdempotencyCache R F) (key : IdempotencyKey) (fingerprint : String) (now : F)
      (o : Option (IdempotencyEntry R F))
      → (claim_at c key fingerprint now o).0 ≡ ok owns
      → lookup key (claim_at c key fingerprint now o).1.entries ≡ some (claimed c fingerprint now)
  claim_owns c key fingerprint now (some y) h = absurd (ground arith)
  claim_owns c key fingerprint now none h =
      ground (arith, h, lookup-put key key (claimed c fingerprint now) c.entries, same_refl key)

  -- What a claim of a key with an entry gives.
  known_claim :
      (c : IdempotencyCache R F) (key : IdempotencyKey) (fingerprint : String) (now : F)
      (x : IdempotencyEntry R F)
      → lookup key c.entries ≡ some x
      → (is_complete x && fl.le x.expires_at now) ≡ false
      → (claim c key fingerprint now).0 ≡ (
          if x.fingerprint == fingerprint
          then ok (waits x)
          else err (idempotency_collision "request ID was reused"))
  unfolding claim
  known_claim c key fingerprint now x h young =
      rw (prune_entries_keeps now key x c.entries h young) (ground arith)

  -- While a run owns a key, through any claims and any ends of runs of other keys, a claim of the
  -- key waits for that run if the fingerprint is the same and is refused as a collision otherwise.
  pub one_run_owns :
      (c d : IdempotencyCache R F) (key : IdempotencyKey) (fingerprint other : String) (t u : F)
      → (claim c key fingerprint t).0 ≡ ok owns
      → Runs key (λ now. false) (claim c key fingerprint t).1 d
      → (claim d key other u).0 ≡ (
          if fingerprint == other
          then ok (waits (claimed c fingerprint t))
          else err (idempotency_collision "request ID was reused"))
  unfolding claim
  one_run_owns c d key fingerprint other t u h r =
      let pruned = record c { entries = prune_entries t c.entries } in
      known_claim d key other u (claimed c fingerprint t)
        (Runs-keep key (λ now. false) _ d (claimed c fingerprint t) (λ now l. refl) r
          (claim_owns pruned key fingerprint t (lookup key pruned.entries) h))
        refl

  settle_stores :
      (c : IdempotencyCache R F) (key : IdempotencyKey) (outcome : Result R)
      (failure : Option Error) (x : IdempotencyEntry R F)
      → lookup key c.entries ≡ some x
      → lookup key (settle c key outcome failure).1.entries
        ≡ some (record x { outcome = some (saved_outcome outcome failure) })
  unfolding settle
  settle_stores c key outcome failure x h = ground (
    arith,
    h,
    lookup-put key key (record x { outcome = some (saved_outcome outcome failure) }) c.entries,
    same_refl key,
  )

  -- After the owner of a key has ended, through any claims before the entry expires and any ends of
  -- runs of other keys, a claim with the same key and fingerprint at a time before the expiry gets
  -- the outcome of the owner, an error of the store included.
  pub settled_outcome_is_reused :
      (c d n : IdempotencyCache R F) (key : IdempotencyKey) (fingerprint : String) (t u : F)
      (outcome : Result R) (failure : Option Error)
      → (claim c key fingerprint t).0 ≡ ok owns
      → Runs key (λ now. false) (claim c key fingerprint t).1 d
      → Runs key (λ now. fl.le (fl.add t c.ttl) now) (settle d key outcome failure).1 n
      → fl.le (fl.add t c.ttl) u ≡ false
      → (claim n key fingerprint u).0
        ≡ ok (
            waits
              (record (claimed c fingerprint t) { outcome = some (saved_outcome outcome failure) }))
  unfolding claim
  settled_outcome_is_reused c d n key fingerprint t u outcome failure h before after young =
      let pruned = record c { entries = prune_entries t c.entries } in
      let x = claimed c fingerprint t in
      let done = record x { outcome = some (saved_outcome outcome failure) } in
      let kept =
        Runs-keep key (λ now. false) _ d x (λ now l. refl) before
          (claim_owns pruned key fingerprint t (lookup key pruned.entries) h) in
      let reused =
        known_claim n key fingerprint u done
          (Runs-keep key (λ now. fl.le (fl.add t c.ttl) now) _ n done (λ now l. l) after
            (settle_stores d key outcome failure x kept))
          young in
      ground (arith, reused, same_refl fingerprint)
