-- ===== src/Persistence.antt =====
-- Trust as saved and restored: src/expra_connect/runtime/persistence.py. A value of the store is what
-- json and YAML documents hold. `show` is Python's `str` of a value that is not a text, and
-- `float_of` is `float` of an int, where it does not overflow.
pub mod RoundTrip
pub mod Restored
pub mod RoleStates
use Prim.Native.Char.{code}
use Prim.Native.String.{count, compare}
use Prim.Native.String as Str
use Prim.Native.Nat.{Ordering}
use expra_connect.Prelude.{
  ℕ, String, string_eq, ◌==◌, Bool, true, false, not, ◌&&◌, ◌||◌, Option, none, some, Result, ok,
  err, value_error, type_error, key_error, raise_if, ◌>>◌, ◌>>=◌, List, [], ◌∷◌, any, contains,
  if◌then◌else◌, Floats, ℤ, pos, ltb_int, leb, nat_eq,
}
use expra_connect.Identity.{NodeId, init_node_id}
use expra_connect.Pairing.{
  Direction, outbound, inbound, Intent, pair, repair, Material, PendingPairing, TrustedPeer,
  PeerGrant,
}

mutual
  pub data Value (F : Type 0) : Type 0 where
    null : Value F
    bool : Bool → Value F
    int : ℤ → Value F
    float : F → Value F
    text : String → Value F
    items : Items F → Value F
    fields : Fields F → Value F

  pub data Items (F : Type 0) : Type 0 where
    no_item : Items F
    item : Value F → Items F → Items F

  pub data Fields (F : Type 0) : Type 0 where
    no_field : Fields F
    field : String → Value F → Fields F → Fields F

-- is every character a hexadecimal digit?
unfoldable pub is_hex : String → Bool
is_hex String.[] = true
is_hex (String.◌∷◌ c s) =
    let n = code c in
    (leb 48 n && leb n 57 || leb 65 n && leb n 70 || leb 97 n && leb n 102) && is_hex s

-- 64 characters that decode to 32 bytes: each is a digit
unfoldable pub is_secret : String → Bool
is_secret s = nat_eq (Str.count s) 64 && is_hex s

-- sorted(texts)
unfoldable pub insert_sorted : String → List String → List String
insert_sorted x [] = x ∷ []
insert_sorted x (y ∷ l) =
    let rest = insert_sorted x l in elim (compare y x) [ Ordering.gt ↦ x ∷ y ∷ l | _ ↦ y ∷ rest ]

unfoldable pub sorted : List String → List String
sorted [] = []
sorted (x ∷ l) = insert_sorted x (sorted l)

-- the values of `NodePermission`
abbrev pub known_permissions : List String
known_permissions =
    "read_state" ∷ "remote_management" ∷ "process_termination" ∷ "process_force_termination"
    ∷ "cleanup" ∷ []

unfoldable pub are_known : List String → Bool
are_known l = not (any (λ p. not (contains p known_permissions)) l)

unfoldable pub direction_text : Direction → String
direction_text outbound = "outbound"
direction_text inbound = "inbound"

unfoldable pub intent_text : Intent → String
intent_text pair = "pair"
intent_text repair = "repair"

abbrev pub known_texts : Option (List String) → Result (List String)
known_texts none = err (type_error "persisted permissions are invalid")
known_texts (some l) =
    if are_known l then ok l else err (value_error "persisted permissions contain an unknown value")

module _ {F : Type 0} where
  -- value.get(key); `d[key] = v` last, so the first field of a name counts
  unfoldable pub get : String → Fields F → Option (Value F)
  get key no_field = none
  get key (field k v rest) = let later = get key rest in if k == key then some v else later

  -- value[key]
  unfoldable pub required : String → Fields F → Result (Value F)
  required key d = elim (get key d) [ none ↦ err (key_error key) | some v ↦ ok v ]

  abbrev pub text_items : List String → Items F
  text_items [] = no_item
  text_items (x ∷ l) = item (text x) (text_items l)

  -- the items, if all are texts
  unfoldable pub texts : Items F → Option (List String)
  texts no_item = some []
  texts (item (text x) l) = elim (texts l) [ none ↦ none | some xs ↦ some (x ∷ xs) ]
  texts (item v l) = none

  abbrev pub optional : Option String → Value F
  optional none = null
  optional (some x) = text x

  abbrev pub generation_value : Option ℤ → Value F
  generation_value none = null
  generation_value (some g) = int g

  -- the last five entries of a peer and of a grant, before `rest`
  abbrev pub material_fields : Material → Fields F → Fields F
  material_fields m rest = field "identity_fingerprint" (optional m.identity_fingerprint) (
      field "transport_fingerprint" (optional m.transport_fingerprint) (
        field "root_public_key" (optional m.root_public_key) (
          field "transport_generation" (generation_value m.transport_generation)
            (field "transport_proof" (optional m.transport_proof) rest))))

  unfoldable pub peer_grant_to_json : PeerGrant → Value F
  peer_grant_to_json g = fields (
      field "caller_id" (text g.caller_id) (
        field "secret" (text g.secret) (
          field "permissions" (items (text_items (sorted g.permissions)))
            (material_fields g.material no_field))))

  unfoldable pub trusted_peer_to_json : TrustedPeer → Value F
  trusted_peer_to_json p = fields (
      field "peer_id" (text p.peer_id) (
        field "secret" (text p.secret) (
          field "permissions" (items (text_items (sorted p.permissions)))
            (material_fields p.material no_field))))

  unfoldable pub pending_pairing_to_json : PendingPairing F → List String → Value F
  pending_pairing_to_json t permissions = fields (
      field "transaction_id" (text t.transaction_id) (
        field "peer_id" (text t.peer_id) (
          field "secret" (text t.secret) (
            field "expires_at" (float t.expires_at) (
              material_fields t.material (
                field "direction" (text (direction_text t.direction)) (
                  field "intent" (text (intent_text t.intent))
                    (field "permissions" (items (text_items (sorted permissions))) no_field))))))))

  unfoldable pub optional_generation : Option (Value F) → Result (Option ℤ)
  optional_generation none = ok none
  optional_generation (some null) = ok none
  optional_generation (some (int g)) =
      if ltb_int g (pos 1)
      then err (type_error "persisted transport generation is invalid")
      else ok (some g)
  optional_generation (some v) = err (type_error "persisted transport generation is invalid")

  unfoldable pub permissions_from_json : Option (Value F) → Result (List String)
  permissions_from_json (some (items l)) = known_texts (texts l)
  permissions_from_json v = err (type_error "persisted permissions are invalid")

  unfoldable pub validate_secret : Option (Value F) → Result (Unit {0})
  validate_secret (some (text s)) =
      raise_if (not (is_secret s)) (value_error "persisted peer secret is invalid")
  validate_secret v = err (value_error "persisted peer secret is invalid")

  abbrev pub object_of : String → Value F → Result (Fields F)
  object_of message (fields d) = ok d
  object_of message v = err (type_error message)

module _ {F : Type 0} ⦃fl : Floats F⦄ (show : Value F → String) (float_of : ℤ → Result F) where
  -- str(value)
  abbrev pub str : Value F → String
  str (text x) = x
  str v = show v

  unfoldable pub optional_text : Option (Value F) → Option String
  optional_text none = none
  optional_text (some null) = none
  optional_text (some v) = some (str v)

  abbrev pub material_from : Fields F → Result Material
  material_from d = do
    g ← optional_generation (get "transport_generation" d)
    ok (record {
      identity_fingerprint = optional_text (get "identity_fingerprint" d);
      transport_fingerprint = optional_text (get "transport_fingerprint" d);
      root_public_key = optional_text (get "root_public_key" d);
      transport_generation = g;
      transport_proof = optional_text (get "transport_proof" d);
    })

  -- the id, the secret and the material of a peer or a grant, whose id stands under `key`
  abbrev pub credential_from : String → Fields F → Result (NodeId × (String × Material))
  credential_from key d = do
    raw ← required key d
    node_id ← init_node_id (str raw)
    secret ← required "secret" d
    material ← material_from d
    ok (node_id, (str secret, material))

  unfoldable pub peer_grant_from_json : Value F → Result PeerGrant
  peer_grant_from_json v = do
    d ← object_of "persisted grant must be an object" v
    permissions ← permissions_from_json (get "permissions" d)
    validate_secret (get "secret" d)
    c ← credential_from "caller_id" d
    ok (record { caller_id = c.0; secret = c.1.0; permissions = permissions; material = c.1.1 })

  unfoldable pub trusted_peer_from_json : Value F → Result TrustedPeer
  trusted_peer_from_json v = do
    d ← object_of "persisted trusted peer must be an object" v
    permissions ← permissions_from_json (get "permissions" d)
    validate_secret (get "secret" d)
    c ← credential_from "peer_id" d
    ok (record { peer_id = c.0; secret = c.1.0; permissions = permissions; material = c.1.1 })

  abbrev pub finite_time : F → Result F
  finite_time t =
      if fl.is_finite (fl.to_float t)
      then ok (fl.to_float t)
      else err (type_error "persisted pending pairing expiry is invalid")

  unfoldable pub expiry_from : Value F → Result F
  expiry_from (float t) = finite_time t
  expiry_from (int n) = do t ← float_of n; finite_time t
  expiry_from v = err (type_error "persisted pending pairing expiry is invalid")

  -- the permissions of a transaction; none stored are none
  abbrev pub pending_permissions_from : Option (Value F) → Result (Option (Value F))
  pending_permissions_from none = ok (some (items no_item))
  pending_permissions_from (some (items l)) = elim (texts l) [
    | none ↦ err (type_error "persisted pending pairing permissions are invalid")
    | some xs ↦ ok (some (items l))
  ]
  pending_permissions_from v = err (type_error "persisted pending pairing permissions are invalid")

  unfoldable pub direction_from : Option (Value F) → Result Direction
  direction_from none = ok outbound
  direction_from (some (text x)) =
      if x == "outbound"
      then ok outbound
      else if x == "inbound"
      then ok inbound
      else err (type_error "persisted pending pairing direction is invalid")
  direction_from v = err (type_error "persisted pending pairing direction is invalid")

  unfoldable pub intent_from : Option (Value F) → Result Intent
  intent_from none = ok pair
  intent_from (some (text x)) =
      if x == "pair"
      then ok pair
      else if x == "repair"
      then ok repair
      else err (type_error "persisted pending pairing intent is invalid")
  intent_from v = err (type_error "persisted pending pairing intent is invalid")

  -- the transaction and the permissions that are kept for it
  unfoldable pub pending_pairing_from_json : Value F → Result (PendingPairing F × List String)
  pending_pairing_from_json v = do
    d ← object_of "persisted pending pairing must be an object" v
    raw_expiry ← required "expires_at" d
    expires_at ← expiry_from raw_expiry
    validate_secret (get "secret" d)
    stored ← pending_permissions_from (get "permissions" d)
    direction ← direction_from (get "direction" d)
    intent ← intent_from (get "intent" d)
    transaction_id ← required "transaction_id" d
    c ← credential_from "peer_id" d
    permissions ← permissions_from_json stored
    ok (
      record {
        transaction_id = str transaction_id;
        peer_id = c.0;
        secret = c.1.0;
        expires_at = expires_at;
        material = c.1.1;
        direction = direction;
        intent = intent;
      },
      permissions,
    )
