-- ===== src/Pairing.antt =====
-- `PairingManager` of src/expra_connect/pairing/manager.py. The readings of the clock, the new
-- transaction id and the new secret are arguments, in the order in which the code takes them. A
-- method that raises has changed nothing. A frozenset of permissions is the list of its texts. The
-- library's check of a signature is the parameter `check_signature`.
pub mod Relationship
pub mod Calls
pub mod Trust
pub mod Single
pub mod Continuity
pub mod Directions
pub mod Target
pub mod Wire
pub mod Control
pub mod Requests
pub mod Refusals
pub mod Approval
pub mod Confirmation
pub mod Rollback
pub mod Elevation
use expra_connect.Prelude.{
  ℕ, zero, suc, ◌+◌, String, string_eq, option_eq, int_eq, ◌==◌, Bool, true, false, not, ◌&&◌, ◌||◌,
  Option, none, some, Result, ok, err, value_error, pairing_busy, ◌>>=◌, ◌>>◌, raise_if, List, [],
  ◌∷◌, map, Dict, lookup, put, erase, member, keys, filter, any, find?, length, contains,
  if◌then◌else◌, Floats, ℤ, pos, ltb_int,
}
use expra_connect.Identity.{NodeId}

pub data Direction : Type 0 where
  outbound inbound : Direction

pub data Intent : Type 0 where
  pair repair : Intent

abbrev pub is_direction : Direction → Direction → Bool
is_direction outbound outbound = true
is_direction inbound inbound = true
is_direction _ _ = false

abbrev pub is_intent : Intent → Intent → Bool
is_intent pair pair = true
is_intent repair repair = true
is_intent _ _ = false

-- the checks of the two texts
unfoldable pub direction_of : String → Result Direction
direction_of text =
    if text == "outbound"
    then ok outbound
    else if text == "inbound"
    then ok inbound
    else err (value_error "pairing direction is invalid")

unfoldable pub intent_of : String → Result Intent
intent_of text =
    if text == "pair"
    then ok pair
    else if text == "repair"
    then ok repair
    else err (value_error "pairing intent is invalid")

-- the last five fields that a transaction, a trusted peer and a grant have in common
pub record Material : Type 0 where
  pub identity_fingerprint : Option String
  pub transport_fingerprint : Option String
  pub root_public_key : Option String
  pub transport_generation : Option ℤ
  pub transport_proof : Option String

pub record PendingPairing (F : Type 0) : Type 0 where
  pub transaction_id : String
  pub peer_id : NodeId
  pub secret : String
  pub expires_at : F
  pub material : Material
  pub direction : Direction
  pub intent : Intent

pub record TrustedPeer : Type 0 where
  pub peer_id : NodeId
  pub secret : String
  pub permissions : List String
  pub material : Material

pub record PeerGrant : Type 0 where
  pub caller_id : NodeId
  pub secret : String
  pub permissions : List String
  pub material : Material

pub data RelationshipState : Type 0 where
  unpaired outbound_trusted inbound_granted bidirectional : RelationshipState
  pending_outbound pending_inbound repair_required identity_conflict : RelationshipState

pub record PairingManager (F : Type 0) : Type 0 where
  pub local_id : NodeId
  pub ttl : F
  pub pending : Dict String (PendingPairing F)
  pub trusted : Dict NodeId TrustedPeer
  pub grants : Dict NodeId PeerGrant
  pub auth_broken : Dict NodeId Bool

pub record PairingManagerSnapshot (F : Type 0) : Type 0 where
  pub trusted : Dict NodeId TrustedPeer
  pub grants : Dict NodeId PeerGrant
  pub pending : Dict String (PendingPairing F)
  pub auth_broken : Dict NodeId Bool

abbrev pub same_material : Material → Material → Bool
same_material a b =
    a.identity_fingerprint == b.identity_fingerprint
    && a.transport_fingerprint == b.transport_fingerprint
    && a.root_public_key == b.root_public_key
    && a.transport_generation == b.transport_generation
    && a.transport_proof == b.transport_proof

-- a text or None, as a condition
unfoldable pub truthy : Option String → Bool
truthy none = false
truthy (some text) = not (text == "")

abbrev pub text_of : Option String → String
text_of none = ""
text_of (some text) = text

-- `generation is not None and (stored is None or generation > stored)`
unfoldable pub is_newer : Option ℤ → Option ℤ → Bool
is_newer none stored = false
is_newer (some g) none = true
is_newer (some g) (some stored) = ltb_int stored g

-- `bool(self._auth_broken.get(peer_id))`
unfoldable pub is_auth_broken : {F : Type 0} → PairingManager F → NodeId → Bool
is_auth_broken m peer = elim (lookup peer m.auth_broken) [ none ↦ false | some b ↦ b ]

unfoldable pub init_pairing : {F : Type 0} → NodeId → F → PairingManager F
init_pairing local_id ttl = record {
  local_id = local_id;
  ttl = ttl;
  pending = [];
  trusted = [];
  grants = [];
  auth_broken = [];
}

-- `permissions <= _READ_ONLY_PERMISSIONS`
unfoldable pub is_read_only : List String → Bool
is_read_only permissions = not (any (λ p. not (p == "ping" || p == "read_state")) permissions)

-- What checks a signature: a node id, a root key, a generation, a fingerprint and a proof, with the
-- exceptions that the code catches as a refusal.
module _ (check_signature : NodeId → String → ℤ → String → String → Bool) where
  -- `verify_transport_proof`
  unfoldable pub verify_transport_proof : NodeId → String → ℤ → String → String → Bool
  verify_transport_proof node_id root generation fingerprint proof =
      if ltb_int generation (pos 1) || fingerprint == ""
      then false
      else check_signature node_id root generation fingerprint proof

  -- the proof for a generation, if there are both
  abbrev pub verified : NodeId → String → Option ℤ → String → Option String → Bool
  verified node_id root none fingerprint proof = false
  verified node_id root (some g) fingerprint proof =
      truthy proof && verify_transport_proof node_id root g fingerprint (text_of proof)

  -- `grant_root_continuous`
  unfoldable pub grant_root_continuous :
      PeerGrant → Option String → Option ℤ → String → Option String → Bool
  grant_root_continuous grant root generation fingerprint proof =
      if not (truthy grant.material.root_public_key)
      then false
      else if not (root == grant.material.root_public_key)
      then false
      else verified grant.caller_id (text_of grant.material.root_public_key) generation fingerprint
          proof

  -- `candidate_transport_generation_allowed`, of the id and the material of a trusted peer or a grant
  unfoldable pub candidate_transport_generation_allowed :
      NodeId → Material → Option String → Option ℤ → Option String → Bool
  candidate_transport_generation_allowed node_id stored fingerprint generation proof =
      if stored.transport_fingerprint == none || fingerprint == stored.transport_fingerprint
      then true
      else (truthy stored.root_public_key
          && is_newer generation stored.transport_generation
          && verified node_id (text_of stored.root_public_key) generation (text_of fingerprint)
              proof)

module _ {F : Type 0} where
  -- the new transaction is stored under its id
  abbrev pub begun : PairingManager F → PendingPairing F → PendingPairing F × PairingManager F
  begun m t = (t, record m { pending = put t.transaction_id t m.pending })

  abbrev pub begin_unless :
      PairingManager F
      → Option (PendingPairing F)
      → Option (PendingPairing F)
      → PendingPairing F
      → Result (PendingPairing F × PairingManager F)
  begin_unless m (some t) busy new = ok (t, m)
  begin_unless m none (some b) new =
      err (pairing_busy "a pairing transaction is already active for this peer")
  begin_unless m none none new = ok (begun m new)

  abbrev pub grant_for : PendingPairing F → List String → PeerGrant
  grant_for t permissions = record {
    caller_id = t.peer_id;
    secret = t.secret;
    permissions = permissions;
    material = t.material;
  }

  -- the peer is trusted, its credential works and the transaction is over
  abbrev pub trust : PairingManager F → String → TrustedPeer → TrustedPeer × PairingManager F
  trust m transaction_id t = (
    t,
    record m {
      trusted = put t.peer_id t m.trusted;
      auth_broken = erase t.peer_id m.auth_broken;
      pending = erase transaction_id m.pending;
    },
  )

  unfoldable pub abort : PairingManager F → String → PairingManager F
  abort m transaction_id = record m { pending = erase transaction_id m.pending }

  -- for key in expired: del self.pending[key]
  unfoldable pub erase_expired :
      List String → Dict String (PendingPairing F) → Dict String (PendingPairing F)
  erase_expired [] d = d
  erase_expired (k ∷ l) d = erase_expired l (erase k d)

  unfoldable pub revoke : PairingManager F → NodeId → PairingManager F
  revoke m peer = record m {
    trusted = erase peer m.trusted;
    grants = erase peer m.grants;
    auth_broken = erase peer m.auth_broken;
    pending = filter (λ p. not (p.1.peer_id == peer)) m.pending;
  }

  -- the transactions without those of the peer in a direction
  abbrev pub pending_without :
      NodeId → Direction → Dict String (PendingPairing F) → Dict String (PendingPairing F)
  pending_without peer d = filter λ p. not (p.1.peer_id == peer && is_direction p.1.direction d)

  unfoldable pub revoke_trusted : PairingManager F → NodeId → PairingManager F
  revoke_trusted m peer = record m {
    trusted = erase peer m.trusted;
    auth_broken = erase peer m.auth_broken;
    pending = pending_without peer outbound m.pending;
  }

  unfoldable pub revoke_grant : PairingManager F → NodeId → PairingManager F
  revoke_grant m peer = record m {
    grants = erase peer m.grants;
    pending = pending_without peer inbound m.pending;
  }

module _ {F : Type 0} ⦃fl : Floats F⦄ where
  -- `transaction.expires_at > current`
  abbrev pub is_active : F → PendingPairing F → Bool
  is_active current t = fl.lt current t.expires_at

  unfoldable pub find_pending : PairingManager F → NodeId → String → F → Option (PendingPairing F)
  find_pending m peer secret current =
      find? (λ t. t.peer_id == peer && t.secret == secret && is_active current t)
        (map (λ p. p.1) m.pending)

  -- an active transaction of the peer, in the direction if one is given
  abbrev pub is_pending_for : NodeId → Option Direction → F → PendingPairing F → Bool
  is_pending_for peer none current t = t.peer_id == peer && is_active current t
  is_pending_for peer (some d) current t =
      t.peer_id == peer && is_active current t && is_direction t.direction d

  unfoldable pub find_pending_for :
      PairingManager F → NodeId → Option Direction → F → Option (PendingPairing F)
  find_pending_for m peer direction current =
      find? (is_pending_for peer direction current) (map (λ p. p.1) m.pending)

  -- what `begin` looks for when it is given a secret
  abbrev pub replay :
      PairingManager F → NodeId → Option String → Direction → Intent → F → Option (PendingPairing F)
  replay m peer none direction intent current = none
  replay m peer (some secret) direction intent current = elim (find_pending m peer secret current) [
    | none ↦ none
    | some t ↦
        if is_direction t.direction direction && is_intent t.intent intent then some t else none
  ]

  -- `new_id`, `token`: what uuid4 and token_hex give; the clock is read for the replay, for the
  -- active transaction, and for the expiry
  unfoldable pub begin :
      PairingManager F
      → NodeId
      → Option String
      → Material
      → String
      → String
      → String
      → String
      → F
      → F
      → F
      → Result (PendingPairing F × PairingManager F)
  begin m peer secret material direction intent new_id token replayed checked started = do
    d ← direction_of direction
    i ← intent_of intent
    begin_unless m (replay m peer secret d i replayed) (find_pending_for m peer (some d) checked)
        (record {
          transaction_id = new_id;
          peer_id = peer;
          secret = if truthy secret then text_of secret else token;
          expires_at = fl.add started m.ttl;
          material = material;
          direction = d;
          intent = i;
        })

  -- `_active`
  unfoldable pub active : PairingManager F → String → F → Result (PendingPairing F)
  active m transaction_id current = elim (lookup transaction_id m.pending) [
    | none ↦ err (value_error "pairing transaction is missing or expired")
    | some t ↦
        if fl.le t.expires_at current
        then err (value_error "pairing transaction is missing or expired")
        else ok t
  ]

  unfoldable pub approve :
      PairingManager F → String → List String → F → Result (PeerGrant × PairingManager F)
  approve m transaction_id permissions current = do
    t ← active m transaction_id current
    raise_if (not (is_read_only permissions)) (value_error "pairing permissions are read-only")
    let grant = grant_for t permissions
    ok (grant, record m { grants = put t.peer_id grant m.grants })

  unfoldable pub receive_request :
      PairingManager F
      → NodeId
      → PendingPairing F
      → F
      → Result (PendingPairing F × PairingManager F)
  receive_request m caller t current = do
    raise_if (fl.le t.expires_at current) (value_error "pairing transaction is expired")
    ok (begun m (record t { peer_id = caller; direction = inbound }))

  unfoldable pub confirm : PairingManager F → String → F → Result (TrustedPeer × PairingManager F)
  confirm m transaction_id current = do
    t ← active m transaction_id current
    elim (lookup t.peer_id m.grants) [
      | none ↦ err (value_error "pairing was not approved")
      | some g ↦ ok (
          trust m transaction_id (record {
            peer_id = t.peer_id;
            secret = t.secret;
            permissions = g.permissions;
            material = g.material;
          }))
    ]

  unfoldable pub accept_grant :
      PairingManager F
      → String
      → NodeId
      → PeerGrant
      → Material
      → F
      → Result (TrustedPeer × PairingManager F)
  accept_grant m transaction_id peer grant peer_material current = do
    t ← active m transaction_id current
    raise_if (not (t.peer_id == peer) || not (grant.caller_id == m.local_id))
        (value_error "pairing grant binding mismatch")
    raise_if (not (same_material grant.material t.material))
        (value_error "pairing fingerprint binding mismatch")
    ok (
        trust m transaction_id (record {
          peer_id = peer;
          secret = t.secret;
          permissions = grant.permissions;
          material = peer_material;
        }))

  unfoldable pub prune_expired : PairingManager F → F → ℕ × PairingManager F
  prune_expired m current =
      let expired = keys (filter (λ p. fl.le p.1.expires_at current) m.pending) in
      (length expired, record m { pending = erase_expired expired m.pending })
