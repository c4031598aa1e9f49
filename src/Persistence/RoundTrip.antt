-- ===== src/Persistence/RoundTrip.antt =====
-- What src/expra_connect/runtime/persistence.py restores from what it saved.
use expra_connect.Prelude.{
  ◌≡◌, refl, String, string_eq, Bool, true, false, not, ◌||◌, Option, none, some, Result, ok, List,
  [], ◌∷◌, any, contains, Floats, ℤ, pos, ltb_int, arith,
}
use expra_connect.Identity.{NodeId, init_node_id}
use expra_connect.Pairing.{
  Direction, outbound, inbound, Intent, pair, repair, Material, PendingPairing, TrustedPeer,
  PeerGrant,
}
use expra_connect.Persistence.{
  Value, Fields, items, text, is_secret, insert_sorted, sorted, are_known, known_permissions,
  direction_text, intent_text, get, required, text_items, texts, optional, generation_value,
  peer_grant_to_json, trusted_peer_to_json, pending_pairing_to_json, optional_generation,
  permissions_from_json, validate_secret, optional_text, material_from, credential_from,
  peer_grant_from_json, trusted_peer_from_json, expiry_from, pending_permissions_from,
  direction_from, intent_from, pending_pairing_from_json,
}

any-insert_sorted :
    (p : String → Bool) (x : String) (l : List String)
    → any p (insert_sorted x l) ≡ (p x || any p l)
unfolding insert_sorted
any-insert_sorted p x [] = refl
any-insert_sorted p x (y ∷ l) = ground (arith, any-insert_sorted p x l)

any-sorted : (p : String → Bool) (l : List String) → any p (sorted l) ≡ any p l
unfolding sorted
any-sorted p [] = refl
any-sorted p (x ∷ l) = ground (arith, any-insert_sorted p x (sorted l), any-sorted p l)

sorted_known : (l : List String) → are_known l ≡ true → are_known (sorted l) ≡ true
unfolding are_known
sorted_known l h = ground (arith, h, any-sorted (λ p. not (contains p known_permissions)) l)

pub texts-text_items : (F : Type 0) (l : List String) → texts (text_items {F = F} l) ≡ some l
unfolding texts
texts-text_items F [] = refl
texts-text_items F (x ∷ l) = rw (texts-text_items F l) refl

-- A generation that the constructor of the proof accepts.
pub data HasGeneration (m : Material) : Type 0 where
  no_generation : m.transport_generation ≡ none → HasGeneration m
  from_one : (g : ℤ) → m.transport_generation ≡ some g → ltb_int g (pos 1) ≡ false → HasGeneration m

-- What may be saved and restored: a node id, a secret, permissions and a generation that are valid.
pub record IsStorable (node_id : NodeId) (secret : String) (permissions : List String)
    (m : Material) : Type 0 where
  pub valid_id : init_node_id node_id ≡ ok node_id
  pub valid_secret : is_secret secret ≡ true
  pub known : are_known permissions ≡ true
  pub generation : HasGeneration m

module _ {F : Type 0} ⦃fl : Floats F⦄ (show : Value F → String) (float_of : ℤ → Result F) where
  optional_text-optional : (o : Option String) → optional_text show float_of (some (optional o)) ≡ o
  unfolding optional_text
  optional_text-optional none = refl
  optional_text-optional (some x) = refl

  generation_back :
      (m : Material)
      → HasGeneration m
      → optional_generation (some (generation_value {F = F} m.transport_generation))
        ≡ ok m.transport_generation
  unfolding optional_generation
  generation_back m (no_generation e) = rw e refl
  generation_back m (from_one g e h) = rw e (rw h refl)

  permissions_back :
      (l : List String)
      → are_known l ≡ true
      → permissions_from_json (some (items (text_items {F = F} (sorted l)))) ≡ ok (sorted l)
  unfolding permissions_from_json
  permissions_back l h = rw (texts-text_items F (sorted l)) (rw (sorted_known l h) refl)

  -- The entries are the ones that were saved.
  record HasMaterial (d : Fields F) (m : Material) : Type 0 where
    identity : get "identity_fingerprint" d ≡ some (optional m.identity_fingerprint)
    transport : get "transport_fingerprint" d ≡ some (optional m.transport_fingerprint)
    root : get "root_public_key" d ≡ some (optional m.root_public_key)
    generation : get "transport_generation" d ≡ some (generation_value m.transport_generation)
    proof : get "transport_proof" d ≡ some (optional m.transport_proof)

  material_back :
      (d : Fields F) (m : Material)
      → HasMaterial d m
      → HasGeneration m
      → material_from show float_of d ≡ ok m
  material_back d m h g = rw h.generation (
      rw (generation_back m g) (
        rw h.identity (
          rw h.transport (
            rw h.root (
              rw h.proof (
                rw (optional_text-optional m.identity_fingerprint) (
                  rw (optional_text-optional m.transport_fingerprint) (
                    rw (optional_text-optional m.root_public_key)
                      (rw (optional_text-optional m.transport_proof) refl)))))))))

  credential_back :
      (key : String) (d : Fields F) (node_id : NodeId) (secret : String) (m : Material)
      → get key d ≡ some (text node_id)
      → get "secret" d ≡ some (text secret)
      → HasMaterial d m
      → init_node_id node_id ≡ ok node_id
      → HasGeneration m
      → credential_from show float_of key d ≡ ok (node_id, (secret, m))
  unfolding required
  credential_back key d node_id secret m k q h i g =
      rw (k, required) (rw i (rw (q, required) (rw (material_back d m h g) refl)))

  peer_grant_back :
      (g : PeerGrant)
      → IsStorable g.caller_id g.secret g.permissions g.material
      → peer_grant_from_json show float_of (peer_grant_to_json g)
        ≡ ok (record g { permissions = sorted g.permissions })
  unfolding peer_grant_from_json peer_grant_to_json get validate_secret
  peer_grant_back g s = rw (permissions_back g.permissions s.known) (
      rw s.valid_secret (
        rw
          (credential_back "caller_id" _ g.caller_id g.secret g.material refl refl
            (record {
              identity = refl;
              transport = refl;
              root = refl;
              generation = refl;
              proof = refl;
            })
            s.valid_id s.generation)
          refl))

  trusted_peer_back :
      (p : TrustedPeer)
      → IsStorable p.peer_id p.secret p.permissions p.material
      → trusted_peer_from_json show float_of (trusted_peer_to_json p)
        ≡ ok (record p { permissions = sorted p.permissions })
  unfolding trusted_peer_from_json trusted_peer_to_json get validate_secret
  trusted_peer_back p s = rw (permissions_back p.permissions s.known) (
      rw s.valid_secret (
        rw
          (credential_back "peer_id" _ p.peer_id p.secret p.material refl refl
            (record {
              identity = refl;
              transport = refl;
              root = refl;
              generation = refl;
              proof = refl;
            })
            s.valid_id s.generation)
          refl))

  -- A grant and a trusted peer with a valid id, a valid secret, known permissions and no generation
  -- or one from 1 are restored from what they are saved as, with the permissions sorted.
  pub trust_round_trip :
      (g : PeerGrant) (p : TrustedPeer)
      → IsStorable g.caller_id g.secret g.permissions g.material
      → IsStorable p.peer_id p.secret p.permissions p.material
      → (peer_grant_from_json show float_of (peer_grant_to_json g)
          ≡ ok (record g { permissions = sorted g.permissions }))
        × (trusted_peer_from_json show float_of (trusted_peer_to_json p)
            ≡ ok (record p { permissions = sorted p.permissions }))
  trust_round_trip g p s t = (peer_grant_back g s, trusted_peer_back p t)

  direction_back :
      (d : Direction) → direction_from show float_of (some (text (direction_text d))) ≡ ok d
  unfolding direction_from direction_text
  direction_back outbound = refl
  direction_back inbound = refl

  intent_back : (i : Intent) → intent_from show float_of (some (text (intent_text i))) ≡ ok i
  unfolding intent_from intent_text
  intent_back pair = refl
  intent_back repair = refl

  pending_permissions_back :
      (l : List String)
      → pending_permissions_from show float_of (some (items (text_items {F = F} l)))
        ≡ ok (some (items (text_items {F = F} l)))
  pending_permissions_back l = rw (texts-text_items F l, pending_permissions_from) refl

  -- A transaction with a finite expiry, a valid id, a valid secret, a generation from 1 or none and
  -- known permissions is restored from what it is saved as, with its permissions sorted and its
  -- expiry as a float.
  pub pending_pairing_round_trip :
      (t : PendingPairing F) (permissions : List String)
      → IsStorable t.peer_id t.secret permissions t.material
      → fl.is_finite t.expires_at ≡ true
      → pending_pairing_from_json show float_of (pending_pairing_to_json t permissions)
        ≡ ok (record t { expires_at = fl.to_float t.expires_at }, sorted permissions)
  unfolding pending_pairing_from_json pending_pairing_to_json get required validate_secret
      expiry_from
  pending_pairing_round_trip t permissions s finite = rw (fl.is_finite-to_float t.expires_at) (
      rw finite (
        rw s.valid_secret (
          rw (pending_permissions_back (sorted permissions)) (
            rw (direction_back t.direction) (
              rw (intent_back t.intent) (
                rw
                  (credential_back "peer_id" _ t.peer_id t.secret t.material refl refl
                    (record {
                      identity = refl;
                      transport = refl;
                      root = refl;
                      generation = refl;
                      proof = refl;
                    })
                    s.valid_id s.generation)
                  (rw (permissions_back permissions s.known) refl)))))))
