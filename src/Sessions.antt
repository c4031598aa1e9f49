-- ===== src/Sessions.antt =====
-- `LogicalSessionRegistry` of src/expra_connect/remote/session.py. The clock's reading and the ids
-- that the factory gives are arguments. A method returns or raises, and leaves a registry.
--
-- The heap of expirations is a list in the order of the times: the code reads its least time only,
-- and entries with the same time leave together.
pub mod Fence
pub mod Bounds
use Prim.Native.String.count
use Prim.Native.String as Str
use expra_connect.Prelude.{
  ℕ, zero, suc, ◌+◌, ◌*◌, String, string_eq, option_eq, ◌==◌, Bool, true, false, not, ◌&&◌, ◌||◌,
  Option, none, some, Result, ok, err, remote_auth_error, type_error, value_error, ◌>>=◌, ◌>>◌,
  raise_if, List, [], ◌∷◌, map, Dict, lookup, put, erase, member, contains, insert, length, ltb,
  leb, if◌then◌else◌, Floats,
}
use expra_connect.Identity.{NodeId}
use expra_connect.Cluster.RoleState.{Moment, number, other}

pub record LogicalSession (F : Type 0) : Type 0 where
  pub owner : String
  pub active_generation : Option String
  pub expires_at : F
  pub retired : List (Option String)

pub record LogicalSessionRegistry (F : Type 0) : Type 0 where
  pub ttl : F
  pub max_sessions : ℕ
  pub max_generations : ℕ
  pub sessions : Dict String (LogicalSession F)
  pub expirations : List (F × String)

-- the fields of a `RemoteRequest` that a registry reads
pub record SessionRequest : Type 0 where
  pub node_id : NodeId
  pub caller_node_id : Option NodeId
  pub session_id : Option String
  pub resume : Bool

-- `_valid_token` on a text, with MAX_IDENTIFIER_LENGTH
unfoldable pub valid_token : String → Bool
valid_token value = leb 1 (Str.count value) && leb (Str.count value) 128

abbrev pub fail : {A : Type 0} → String → Result A
fail m = err (remote_auth_error m)

-- `_validate_generation`
unfoldable pub validate_generation : Option String → Result (Option String)
validate_generation none = ok none
validate_generation (some g) =
    if valid_token g then ok (some g) else fail "connection generation is invalid"

abbrev pub owner_of : SessionRequest → String
owner_of r = elim r.caller_node_id [ none ↦ r.node_id | some c ↦ c ]

-- `_allocate_id_locked`, with `tries` rounds of its loop left: the first id of the factory that is
-- valid and not taken
unfoldable pub allocate_id :
    {F : Type 0} → ℕ → (ℕ → String) → Dict String (LogicalSession F) → Result String
allocate_id zero factory d = fail "could not allocate a logical session"
allocate_id (suc tries) factory d =
    let again = allocate_id tries (λ k. factory (suc k)) d in
    if not (valid_token (factory 0))
    then fail "logical session id is invalid"
    else if not (member (factory 0) d)
    then ok (factory 0)
    else again

-- A value that is used as a count: an int from 0 up, a negative int, or anything else.
pub data IntValue : Type 0 where
  from_zero : ℕ → IntValue
  below_zero : IntValue
  no_int : IntValue

-- `_positive_int`
unfoldable pub positive_int : IntValue → String → Result ℕ
positive_int no_int message = err (type_error message)
positive_int below_zero message = err (value_error message)
positive_int (from_zero n) message = if ltb n 1 then err (value_error message) else ok n

module _ {F : Type 0} ⦃fl : Floats F⦄ where
  -- `_validated_clock`
  unfoldable pub validated_clock : Moment F → Result F
  validated_clock other = fail "logical session clock is invalid"
  validated_clock (number x) =
      if fl.is_finite x then ok (fl.to_float x) else fail "logical session clock is invalid"

  -- `_finite_positive`
  unfoldable pub finite_positive : Moment F → String → Result F
  finite_positive other message = err (type_error message)
  finite_positive (number x) message =
      if not (fl.is_finite x) || fl.le (fl.to_float x) (fl.literal 0)
      then err (value_error message)
      else ok (fl.to_float x)

  -- the constructor; the clock and the factory are arguments of the methods
  unfoldable pub init_sessions : Moment F → IntValue → IntValue → Result (LogicalSessionRegistry F)
  init_sessions ttl_seconds max_sessions max_generations_per_session = do
    ttl ← finite_positive ttl_seconds "session ttl must be a finite positive number"
    sessions ← positive_int max_sessions "max sessions must be a positive integer"
    generations ←
        positive_int max_generations_per_session
          "max generations per session must be a positive integer"
    ok (record {
      ttl = ttl;
      max_sessions = sessions;
      max_generations = generations;
      sessions = [];
      expirations = [];
    })

  -- heapq.heappush
  unfoldable pub heappush : F × String → List (F × String) → List (F × String)
  heappush e [] = e ∷ []
  heappush e (h ∷ l) = let rest = heappush e l in if fl.lt e.0 h.0 then e ∷ h ∷ l else h ∷ rest

  unfoldable pub heapify : List (F × String) → List (F × String)
  heapify [] = []
  heapify (e ∷ l) = heappush e (heapify l)

  -- the session of an entry goes if the entry is the session's own
  abbrev drop_expired :
      F
      → String
      → Option (LogicalSession F)
      → Dict String (LogicalSession F)
      → Dict String (LogicalSession F)
  drop_expired expires_at i none d = d
  drop_expired expires_at i (some s) d = if fl.eq s.expires_at expires_at then erase i d else d

  -- `_prune_locked`: the entries that are left, and the sessions
  unfoldable pub prune :
      F
      → List (F × String)
      → Dict String (LogicalSession F)
      → List (F × String) × Dict String (LogicalSession F)
  prune now [] d = ([], d)
  prune now ((expires_at, i) ∷ l) d =
      let rest = prune now l (drop_expired expires_at i (lookup i d) d) in
      if fl.le expires_at now then rest else ((expires_at, i) ∷ l, d)

  -- `_create` once the id is known
  unfoldable pub add_session :
      LogicalSessionRegistry F → String → Option String → F → String → LogicalSessionRegistry F
  add_session r owner generation now i =
      let session : LogicalSession F = record {
        owner = owner;
        active_generation = generation;
        expires_at = fl.add now r.ttl;
        retired = [];
      } in
      let sessions = put i session r.sessions in
      let expirations = heappush (session.expires_at, i) r.expirations in
      record r {
        sessions = sessions;
        expirations =
            if ltb (2 * r.max_sessions) (length expirations)
            then heapify (map (λ p. (p.1.expires_at, p.0)) sessions)
            else expirations;
      }

  abbrev allocated :
      LogicalSessionRegistry F
      → String
      → Option String
      → F
      → Result String
      → Result String × LogicalSessionRegistry F
  allocated r owner generation now (err e) = (err e, r)
  allocated r owner generation now (ok i) = (ok i, add_session r owner generation now i)

  unfoldable pub create :
      LogicalSessionRegistry F
      → (ℕ → String)
      → String
      → Option String
      → F
      → Result String × LogicalSessionRegistry F
  create r factory owner generation now =
      let (expirations, sessions) = prune now r.expirations r.sessions in
      let pruned = record r { sessions = sessions; expirations = expirations } in
      if leb r.max_sessions (length sessions)
      then (fail "logical session limit reached", pruned)
      else allocated pruned owner generation now (allocate_id 100 factory sessions)

  abbrev dropped : LogicalSessionRegistry F → String → LogicalSessionRegistry F
  dropped r i = record r { sessions = erase i r.sessions }

  -- `session is None or now >= session.expires_at`
  abbrev pub is_expired : Option (LogicalSession F) → F → Bool
  is_expired none now = true
  is_expired (some s) now = fl.le s.expires_at now

  abbrev resumed :
      LogicalSessionRegistry F
      → String
      → Bool
      → Option String
      → LogicalSession F
      → Result String × LogicalSessionRegistry F
  resumed r i resume generation s =
      if generation == s.active_generation
      then (ok i, r)
      else if not resume
      then (fail "connection generation is stale", r)
      else if leb r.max_generations (length s.retired)
      then (fail "logical session retired-generation limit exceeded", dropped r i)
      else (
        ok i,
        record r {
          sessions =
              put i
                (record s {
                  retired = insert s.active_generation s.retired;
                  active_generation = generation;
                })
                r.sessions;
        },
      )

  -- the locked part of `authenticate`, at the session that it finds
  abbrev authenticate_at :
      LogicalSessionRegistry F
      → String
      → Bool
      → String
      → Option String
      → F
      → Option (LogicalSession F)
      → Result String × LogicalSessionRegistry F
  authenticate_at r i resume owner generation now none =
      (fail "logical session is expired", dropped r i)
  authenticate_at r i resume owner generation now (some s) =
      if fl.le s.expires_at now
      then (fail "logical session is expired", dropped r i)
      else if not (s.owner == owner)
      then (fail "logical session belongs to another identity", r)
      else if contains generation s.retired
      then (fail "connection generation is retired", r)
      else resumed r i resume generation s

  abbrev authenticate_valid :
      LogicalSessionRegistry F
      → (ℕ → String)
      → SessionRequest
      → Option String
      → F
      → Option String
      → Result String × LogicalSessionRegistry F
  authenticate_valid r factory q generation now none = create r factory (owner_of q) generation now
  authenticate_valid r factory q generation now (some i) =
      if not (valid_token i)
      then (fail "logical session id is invalid", r)
      else authenticate_at r i q.resume (owner_of q) generation now (lookup i r.sessions)

  abbrev with_inputs :
      {A : Type 0}
      → LogicalSessionRegistry F
      → Result (Option String × F)
      → (Option String → F → Result A × LogicalSessionRegistry F)
      → Result A × LogicalSessionRegistry F
  with_inputs r (err e) k = (err e, r)
  with_inputs r (ok (generation, now)) k = k generation now

  -- the generation is validated before the clock is read
  abbrev inputs : Option String → Moment F → Result (Option String × F)
  inputs generation clock = do
    g ← validate_generation generation
    now ← validated_clock clock
    ok (g, now)

  unfoldable pub authenticate :
      LogicalSessionRegistry F
      → (ℕ → String)
      → Moment F
      → SessionRequest
      → Option String
      → Result String × LogicalSessionRegistry F
  authenticate r factory clock q connection_generation =
      with_inputs r (inputs connection_generation clock)
        λ generation now. authenticate_valid r factory q generation now q.session_id

  abbrev current_at :
      LogicalSessionRegistry F
      → String
      → Option String
      → F
      → Option (LogicalSession F)
      → Result (Unit {0}) × LogicalSessionRegistry F
  current_at r i token now none = (fail "logical session is expired", dropped r i)
  current_at r i token now (some s) =
      if fl.le s.expires_at now
      then (fail "logical session is expired", dropped r i)
      else if not (s.active_generation == token)
      then (fail "connection generation is stale", r)
      else (ok tt, r)

  -- the checks of `assert_current`: the generation, the id, then the clock
  abbrev current_inputs : String → Option String → Moment F → Result (Option String × F)
  current_inputs i generation clock = do
    g ← validate_generation generation
    raise_if (not (valid_token i)) (remote_auth_error "logical session id is invalid")
    now ← validated_clock clock
    ok (g, now)

  unfoldable pub assert_current :
      LogicalSessionRegistry F
      → Moment F
      → String
      → Option String
      → Result (Unit {0}) × LogicalSessionRegistry F
  assert_current r clock i generation =
      with_inputs r (current_inputs i generation clock)
        λ token now. current_at r i token now (lookup i r.sessions)
