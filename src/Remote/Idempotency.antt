-- ===== src/Remote/Idempotency.antt =====
-- `IdempotencyCache` of src/expra_connect/remote/wire_protocol.py. `run` is two locked parts around
-- the operation: what other threads do in between are other steps. The dict of the results as saved
-- in a store is not modelled: that the store raises is an argument.
pub mod Once
use expra_connect.Prelude.{
  ℕ, String, string_eq, pair_eq, ◌==◌, Bool, true, false, not, ◌&&◌, ◌||◌, Option, none, some,
  Result, ok, err, Error, remote_auth_error, idempotency_collision, value_error, raise_if, ◌>>◌,
  ◌>>=◌, List, [], ◌∷◌, Dict, lookup, put, erase, filter, length, leb, ltb, if◌then◌else◌, Floats,
}
use expra_connect.Identity.{NodeId}

-- An entry has its outcome once it is complete: the event is then set.
pub record IdempotencyEntry (R F : Type 0) : Type 0 where
  pub fingerprint : String
  pub expires_at : F
  pub outcome : Option (Result R)

abbrev pub IdempotencyKey : Type 0
IdempotencyKey = NodeId × String

pub record IdempotencyCache (R F : Type 0) : Type 0 where
  pub ttl : F
  pub max_entries : ℕ
  pub entries : Dict IdempotencyKey (IdempotencyEntry R F)

-- What the first part of `run` leads to: the operation, or the entry of another run.
pub data Claim (R F : Type 0) : Type 0 where
  owns : Claim R F
  waits : IdempotencyEntry R F → Claim R F

abbrev pub is_complete : {R F : Type 0} → IdempotencyEntry R F → Bool
is_complete x = elim x.outcome [ none ↦ false | some r ↦ true ]

-- the outcome of the operation, when the results are saved or the store raises
abbrev pub saved_outcome : {R : Type 0} → Result R → Option Error → Result R
saved_outcome (err e) failure = err e
saved_outcome (ok r) none = ok r
saved_outcome (ok r) (some e) = err e

module _ {R F : Type 0} ⦃fl : Floats F⦄ where
  -- the constructor, without a store
  unfoldable pub init_idempotency : F → ℕ → Result (IdempotencyCache R F)
  init_idempotency ttl max_entries = do
    raise_if (fl.le ttl (fl.literal 0) || ltb max_entries 1)
        (value_error "invalid idempotency cache bounds")
    ok (record { ttl = ttl; max_entries = max_entries; entries = [] })

  -- `_prune`
  unfoldable pub prune_entries :
      F → Dict IdempotencyKey (IdempotencyEntry R F) → Dict IdempotencyKey (IdempotencyEntry R F)
  prune_entries now = filter λ p. not (is_complete p.1 && fl.le p.1.expires_at now)

  -- the entry of a run that begins
  abbrev pub claimed : IdempotencyCache R F → String → F → IdempotencyEntry R F
  claimed c fingerprint now = record {
    fingerprint = fingerprint;
    expires_at = fl.add now c.ttl;
    outcome = none;
  }

  abbrev pub claim_at :
      IdempotencyCache R F
      → IdempotencyKey
      → String
      → F
      → Option (IdempotencyEntry R F)
      → Result (Claim R F) × IdempotencyCache R F
  claim_at c key fingerprint now (some x) =
      if x.fingerprint == fingerprint
      then (ok (waits x), c)
      else (err (idempotency_collision "request ID was reused"), c)
  claim_at c key fingerprint now none =
      if leb c.max_entries (length c.entries)
      then (err (remote_auth_error "idempotency cache is full"), c)
      else (ok owns, record c { entries = put key (claimed c fingerprint now) c.entries })

  -- the first locked part of `run`
  unfoldable pub claim :
      IdempotencyCache R F → IdempotencyKey → String → F → Result (Claim R F) × IdempotencyCache R F
  claim c key fingerprint now =
      let d = record c { entries = prune_entries now c.entries } in
      claim_at d key fingerprint now (lookup key d.entries)

  abbrev pub settled :
      IdempotencyCache R F
      → IdempotencyKey
      → Result R
      → Option (IdempotencyEntry R F)
      → IdempotencyCache R F
  settled c key outcome none = c
  settled c key outcome (some x) = record c {
    entries = put key (record x { outcome = some outcome }) c.entries;
  }

  -- the second locked part, of the owner, and what it returns or raises
  unfoldable pub settle :
      IdempotencyCache R F
      → IdempotencyKey
      → Result R
      → Option Error
      → Result R × IdempotencyCache R F
  settle c key outcome failure = (
    saved_outcome outcome failure,
    settled c key (saved_outcome outcome failure) (lookup key c.entries),
  )
