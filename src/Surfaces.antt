-- ===== src/Surfaces.antt =====
-- `SurfaceRegistry` of src/expra_connect/surfaces/registry.py. A handler is a number that stands for
-- the function, a source is a text. A method that raises has changed nothing; a reading of the clock
-- is an argument.
pub mod Revoked
pub mod JsonSafe
pub mod Protocol
use Prim.Native.String.count
use Prim.Native.String as Str
use expra_connect.Prelude.{
  ℕ, String, string_eq, pair_eq, Eq, ◌≡◌, ◌↔◌, refl, ◌==◌, Bool, true, false, not, ◌&&◌, ◌||◌,
  Option, none, some, Result, ok, err, Error, value_error, type_error, permission_error,
  handler_error, raise_if, ◌>>◌, ◌>>=◌, List, [], ◌∷◌, Dict, lookup, put, erase, member, filter,
  ltb, if◌then◌else◌, Floats, arith,
}
use expra_connect.Identity.{NodeId}
use expra_connect.Cluster.RoleState.{Moment, number, other}
use expra_connect.Sharing.{is_blank}

pub data SurfaceAccess : Type 0 where
  read review action : SurfaceAccess

abbrev pub same_access : SurfaceAccess → SurfaceAccess → Bool
same_access read read = true
same_access review review = true
same_access action action = true
same_access _ _ = false

pub same_access_iff : (a b : SurfaceAccess) → (same_access a b ≡ true) ↔ (a ≡ b)
same_access_iff read read = ground arith
same_access_iff read review = ground arith
same_access_iff read action = ground arith
same_access_iff review read = ground arith
same_access_iff review review = ground arith
same_access_iff review action = ground arith
same_access_iff action read = ground arith
same_access_iff action review = ground arith
same_access_iff action action = ground arith

instance abbrev pub access_eq : Eq SurfaceAccess
access_eq = record { same = same_access; same_iff = same_access_iff }

pub record SurfaceDefinition : Type 0 where
  pub surface_id : String
  pub read_handler : ℕ
  pub review_handler : Option ℕ
  pub actions : Dict String ℕ

pub record SurfaceGrant (F : Type 0) : Type 0 where
  pub source : String
  pub surface_id : String
  pub access : SurfaceAccess
  pub expires_at : Option F
  pub cluster : Bool

-- a source, a surface and an access
abbrev pub GrantKey : Type 0
GrantKey = String × (String × SurfaceAccess)

pub record SurfaceRegistry (F : Type 0) : Type 0 where
  pub definitions : Dict String SurfaceDefinition
  pub peer_grants : Dict GrantKey (SurfaceGrant F)
  pub cluster_grants : Dict GrantKey (SurfaceGrant F)

unfoldable pub init_surfaces : {F : Type 0} → SurfaceRegistry F
init_surfaces = record { definitions = []; peer_grants = []; cluster_grants = [] }

-- `_validate_id`
unfoldable pub validate_id : String → String → Result (Unit {0})
validate_id value message =
    raise_if (is_blank value || ltb 128 (Str.count value)) (value_error message)

-- `_access` of a text
unfoldable pub access_of : String → Result SurfaceAccess
access_of text =
    if text == "read"
    then ok read
    else if text == "review"
    then ok review
    else if text == "action"
    then ok action
    else err (value_error "invalid surface access")

-- the loop of `register` over the actions
unfoldable pub action_handlers : List (String × ℕ) → Dict String ℕ → Result (Dict String ℕ)
action_handlers [] d = ok d
action_handlers ((action_id, handler) ∷ l) d = do
  validate_id action_id "invalid action id"
  raise_if (member action_id d) (value_error "duplicate surface action")
  action_handlers l (put action_id handler d)

-- `_handler`
unfoldable pub handler_of : SurfaceDefinition → SurfaceAccess → Option String → Result ℕ
handler_of d read a = ok d.read_handler
handler_of d review a = elim d.review_handler [
  | none ↦ err (permission_error "surface review is not available")
  | some h ↦ ok h
]
handler_of d action none = err (value_error "surface action is required")
handler_of d action (some a) = elim (lookup a d.actions) [
  | none ↦ err (value_error "unknown surface action")
  | some h ↦ ok h
]

abbrev called : {A : Type 0} → Result A → Result A
called (ok x) = ok x
called (err e) = err (handler_error "surface handler failed")

module _ {F : Type 0} where
  unfoldable pub register :
      SurfaceRegistry F → String → ℕ → Option ℕ → List (String × ℕ) → Result (SurfaceRegistry F)
  register r surface_id read_handler review_handler actions = do
    validate_id surface_id "invalid surface id"
    raise_if (member surface_id r.definitions) (value_error "duplicate surface")
    handlers ← action_handlers actions []
    let definition : SurfaceDefinition = record {
      surface_id = surface_id;
      read_handler = read_handler;
      review_handler = review_handler;
      actions = handlers;
    }
    ok (record r { definitions = put surface_id definition r.definitions })

  abbrev pub without_surface :
      String → String → Dict GrantKey (SurfaceGrant F) → Dict GrantKey (SurfaceGrant F)
  without_surface peer surface_id = filter λ p. not (p.0.0 == peer && p.0.1.0 == surface_id)

  -- `revoke_peer`, of every access or of the one that a text names; also `stop_peer`
  unfoldable pub revoke_peer :
      SurfaceRegistry F → NodeId → String → Option String → Result (SurfaceRegistry F)
  revoke_peer r peer surface_id none =
      ok (record r { peer_grants = without_surface peer surface_id r.peer_grants })
  revoke_peer r peer surface_id (some access) = do
    a ← access_of access
    ok (record r { peer_grants = erase (peer, (surface_id, a)) r.peer_grants })

  abbrev pub without_source :
      String → Dict GrantKey (SurfaceGrant F) → Dict GrantKey (SurfaceGrant F)
  without_source source = filter λ p. not (p.0.0 == source)

  unfoldable pub revoke_source : SurfaceRegistry F → String → SurfaceRegistry F
  revoke_source r source = record r {
    peer_grants = without_source source r.peer_grants;
    cluster_grants = without_source source r.cluster_grants;
  }

  unfoldable pub clear_grants : SurfaceRegistry F → SurfaceRegistry F
  clear_grants r = record r { peer_grants = []; cluster_grants = [] }

module _ {F : Type 0} ⦃fl : Floats F⦄ where
  -- `_expiry`; None is no expiry
  unfoldable pub expiry_of : Option (Moment F) → Result (Option F)
  expiry_of none = ok none
  expiry_of (some other) = err (type_error "expiry must be numeric")
  expiry_of (some (number t)) =
      if fl.is_finite t
      then ok (some (fl.to_float t))
      else err (value_error "expiry must be finite")

  -- `_new_grant`
  unfoldable pub new_grant :
      SurfaceRegistry F
      → String
      → String
      → String
      → Option (Moment F)
      → Bool
      → Result (SurfaceGrant F)
  new_grant r source surface_id access expires_at cluster = do
    raise_if (not (member surface_id r.definitions)) (value_error "unknown surface")
    validate_id surface_id "invalid surface id"
    expiry ← expiry_of expires_at
    a ← access_of access
    ok (record {
      source = source;
      surface_id = surface_id;
      access = a;
      expires_at = expiry;
      cluster = cluster;
    })

  unfoldable pub grant_peer :
      SurfaceRegistry F → NodeId → String → String → Option (Moment F) → Result (SurfaceRegistry F)
  grant_peer r peer surface_id access expires_at = do
    g ← new_grant r peer surface_id access expires_at false
    ok (record r { peer_grants = put (peer, (surface_id, g.access)) g r.peer_grants })

  -- a source that is None is refused
  unfoldable pub grant_cluster :
      SurfaceRegistry F
      → Option String
      → String
      → String
      → Option (Moment F)
      → Result (SurfaceRegistry F)
  grant_cluster r none surface_id access expires_at = err (value_error "invalid cluster source")
  grant_cluster r (some source) surface_id access expires_at = do
    g ← new_grant r source surface_id access expires_at true
    ok (record r { cluster_grants = put (source, (surface_id, g.access)) g r.cluster_grants })

  -- `_valid`
  unfoldable pub is_valid : Option (SurfaceGrant F) → F → Bool
  is_valid none now = false
  is_valid (some g) now = elim g.expires_at [ none ↦ true | some t ↦ fl.le now t ]

  -- whether one of the sources has a valid grant of the cluster
  unfoldable pub has_cluster_grant :
      SurfaceRegistry F → String → SurfaceAccess → F → List String → Bool
  has_cluster_grant r surface_id a now [] = false
  has_cluster_grant r surface_id a now (source ∷ l) =
      is_valid (lookup (source, (surface_id, a)) r.cluster_grants) now
      || has_cluster_grant r surface_id a now l

  -- `_authorized_handler`
  unfoldable pub authorized_handler :
      SurfaceRegistry F → NodeId → String → String → Option String → List String → F → Result ℕ
  authorized_handler r peer surface_id access act cluster_sources now = do
    a ← access_of access
    raise_if
        (not (is_valid (lookup (peer, (surface_id, a)) r.peer_grants) now)
          && not (has_cluster_grant r surface_id a now cluster_sources))
        (permission_error "surface access is not authorized")
    elim (lookup surface_id r.definitions) [
      | none ↦ err (value_error "unknown surface")
      | some d ↦ handler_of d a act
    ]

  -- `dispatch`, where `run` is what a handler returns or raises
  unfoldable pub dispatch :
      {A : Type 0}
      → SurfaceRegistry F
      → NodeId
      → String
      → String
      → Option String
      → List String
      → F
      → (ℕ → Result A)
      → Result A
  dispatch r peer surface_id access act cluster_sources now run = do
    h ← authorized_handler r peer surface_id access act cluster_sources now
    called (run h)
