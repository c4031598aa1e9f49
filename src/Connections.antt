-- ===== src/Connections.antt =====
-- src/expra_connect/connections/state.py: the state of a connection and the retry policy.
pub mod Retries
use expra_connect.Prelude.{
  ℕ, ◌+◌, ◌-◌, String, Bool, true, false, not, ◌||◌, Option, none, some, Result, ok, err,
  value_error, overflow_error, Floats, max, min, ltb, if◌then◌else◌,
}

pub data ConnectionStatus : Type 0 where
  unknown connecting online migrating resuming offline : ConnectionStatus
  authentication_failed identity_changed : ConnectionStatus

pub data PeerFailure : Type 0 where
  timeout connection_refused route_failure disappeared : PeerFailure
  authentication_failed identity_changed : PeerFailure

pub record ConnectionState (F : Type 0) : Type 0 where
  pub status : ConnectionStatus
  pub reason : Option String
  pub changed_at : Option F

-- `ConnectionState.unknown()`
abbrev pub unknown_state : {F : Type 0} → ConnectionState F
unknown_state = record { status = unknown; reason = none; changed_at = none }

-- `ConnectionState.unknown(now=now)`, `connecting`, `online` and `offline`
abbrev unknown_at : {F : Type 0} → Option F → ConnectionState F
unknown_at now = record { status = unknown; reason = none; changed_at = now }

abbrev connecting_at : {F : Type 0} → Option F → ConnectionState F
connecting_at now = record { status = connecting; reason = none; changed_at = now }

abbrev online_at : {F : Type 0} → Option F → ConnectionState F
online_at now = record { status = online; reason = none; changed_at = now }

abbrev offline_at : {F : Type 0} → Option String → Option F → ConnectionState F
offline_at reason now = record { status = offline; reason = reason; changed_at = now }

pub record RetryState (F : Type 0) : Type 0 where
  pub attempt : ℕ
  pub next_attempt_at : Option F
  pub automatic_retry : Bool
  pub last_failure : Option PeerFailure

-- `failure in {AUTHENTICATION_FAILED, IDENTITY_CHANGED}`
abbrev pub is_fatal : PeerFailure → Bool
is_fatal authentication_failed = true
is_fatal identity_changed = true
is_fatal _ = false

-- min(self.attempt - 1, max_backoff_exponent)
abbrev pub exponent : ℕ → ℕ → ℕ
exponent attempt most = if ltb most (attempt - 1) then most else attempt - 1

module _ {F : Type 0} where
  unfoldable pub reset : RetryState F → RetryState F
  reset s = record {
    attempt = 0;
    next_attempt_at = none;
    automatic_retry = true;
    last_failure = none;
  }

-- The keyword arguments; `max_backoff_exponent` is none where it is no int that is at least 0.
pub record Backoff (F : Type 0) : Type 0 where
  pub base_seconds : F
  pub max_seconds : F
  pub max_backoff_exponent : Option ℕ

module _ {F : Type 0} ⦃fl : Floats F⦄ where
  abbrev pub bad_seconds : F → Bool
  bad_seconds x = not (fl.is_finite x) || fl.lt x (fl.literal 0)

  abbrev pub extra_seconds : Option (ℕ → F) → ℕ → F
  extra_seconds none attempt = fl.literal 0
  extra_seconds (some jitter) attempt = max fl.lt (fl.literal 0) (fl.to_float (jitter attempt))

  -- the wait before the next attempt, without the jitter
  unfoldable pub delay : F → F → ℕ → ℕ → Result F
  delay base_seconds max_seconds most attempt =
      elim (fl.scale base_seconds (exponent attempt most)) [
        | none ↦ err (overflow_error "int too large to convert to float")
        | some x ↦ ok (min fl.lt max_seconds x)
      ]

  abbrev invalid_configuration : RetryState F → Result (Unit {0}) × RetryState F
  invalid_configuration s = (err (value_error "invalid retry backoff configuration"), s)

  -- the next attempt after the delay and the jitter
  abbrev pub schedule : RetryState F → F → F → Result F → Result (Unit {0}) × RetryState F
  schedule s now extra (err e) = (err e, s)
  schedule s now extra (ok d) =
      if not (fl.is_finite extra) then (err (value_error "retry jitter must be finite"), s) else (
        ok tt,
        record s { next_attempt_at = some (fl.add (fl.add now d) extra); automatic_retry = true },
      )

  -- the rest, when the configuration is valid: what is written before the raise stays written
  unfoldable pub record_valid :
      RetryState F → PeerFailure → F → Option (ℕ → F) → F → F → ℕ → Result (Unit {0}) × RetryState F
  record_valid s failure now jitter base_seconds max_seconds most =
      let s' : RetryState F = record s { last_failure = some failure; attempt = s.attempt + 1 } in
      if is_fatal failure
      then (ok tt, record s' { next_attempt_at = none; automatic_retry = false })
      else schedule s' now (extra_seconds jitter s'.attempt)
          (delay base_seconds max_seconds most s'.attempt)

  abbrev record_with :
      RetryState F
      → PeerFailure
      → F
      → Option (ℕ → F)
      → Backoff F
      → Option ℕ
      → Result (Unit {0}) × RetryState F
  record_with s failure now jitter b none = invalid_configuration s
  record_with s failure now jitter b (some most) =
      if bad_seconds b.base_seconds || bad_seconds b.max_seconds
      then invalid_configuration s
      else record_valid s failure now jitter b.base_seconds b.max_seconds most

  -- `record_failure`, which returns or raises, and leaves the state
  unfoldable pub record_failure :
      RetryState F → PeerFailure → F → Option (ℕ → F) → Backoff F → Result (Unit {0}) × RetryState F
  record_failure s failure now jitter b = record_with s failure now jitter b b.max_backoff_exponent
