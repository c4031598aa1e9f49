-- ===== src/Pairing/Relationship.antt =====
-- The view of a peer in src/expra_connect/pairing/manager.py: `relationship`,
-- `classify_trusted_candidate`, the failures of authentication, the queries and the snapshots.
use expra_connect.Prelude.{
  String, string_eq, option_eq, int_eq, ◌==◌, Bool, true, false, not, ◌&&◌, ◌||◌, Option, none,
  some, lookup, put, erase, member, any, values, contains, if◌then◌else◌, Floats, ℤ,
}
use expra_connect.Identity.{NodeId}
use expra_connect.Pairing.{
  outbound, inbound, PendingPairing, TrustedPeer, PeerGrant, RelationshipState, unpaired,
  outbound_trusted, inbound_granted, bidirectional, pending_outbound, pending_inbound,
  repair_required, identity_conflict, PairingManager, PairingManagerSnapshot, truthy, text_of,
  is_newer, is_auth_broken, verified, find_pending_for, revoke_trusted,
}

module _ {F : Type 0} where
  unfoldable pub mark_auth_failure : PairingManager F → NodeId → PairingManager F
  mark_auth_failure m peer =
      if member peer m.trusted then record m { auth_broken = put peer true m.auth_broken } else m

  unfoldable pub mark_auth_ok : PairingManager F → NodeId → PairingManager F
  mark_auth_ok m peer = record m { auth_broken = erase peer m.auth_broken }

  unfoldable pub has_outbound_trust : PairingManager F → NodeId → Bool
  has_outbound_trust m peer = member peer m.trusted

  -- also `can_join_cluster` and `has_relationship`
  unfoldable pub has_valid_relationship : PairingManager F → NodeId → Bool
  has_valid_relationship m peer =
      member peer m.trusted || any (λ g. g.caller_id == peer) (values m.grants)

  unfoldable pub get_trusted : PairingManager F → NodeId → Option TrustedPeer
  get_trusted m peer = lookup peer m.trusted

  unfoldable pub get_grant : PairingManager F → NodeId → Option PeerGrant
  get_grant m peer = lookup peer m.grants

  unfoldable pub can_call : PairingManager F → NodeId → String → Bool
  can_call m peer permission = elim (lookup peer m.trusted) [
    | none ↦ false
    | some t ↦ contains permission t.permissions
  ]

  unfoldable pub restore_trusted :
      PairingManager F → NodeId → Option TrustedPeer → Bool → PairingManager F
  restore_trusted m peer none auth_broken = revoke_trusted m peer
  restore_trusted m peer (some t) auth_broken = record m {
    trusted = put peer t m.trusted;
    auth_broken = if auth_broken then put peer true m.auth_broken else erase peer m.auth_broken;
  }

  unfoldable pub snapshot : PairingManager F → PairingManagerSnapshot F
  snapshot m = record {
    trusted = m.trusted;
    grants = m.grants;
    pending = m.pending;
    auth_broken = m.auth_broken;
  }

  unfoldable pub restore_snapshot : PairingManager F → PairingManagerSnapshot F → PairingManager F
  restore_snapshot m snap = record m {
    trusted = snap.trusted;
    grants = snap.grants;
    pending = snap.pending;
    auth_broken = snap.auth_broken;
  }

module _ {F : Type 0} ⦃fl : Floats F⦄ where
  abbrev pending_state : Option (PendingPairing F) → RelationshipState
  pending_state none = unpaired
  pending_state (some t) = elim t.direction [
    | outbound ↦ pending_outbound
    | inbound ↦ pending_inbound
  ]

  unfoldable pub relationship : PairingManager F → NodeId → F → RelationshipState
  relationship m peer current =
      let out = member peer m.trusted in
      let granted = member peer m.grants in
      if out && is_auth_broken m peer
      then repair_required
      else if out && granted
      then bidirectional
      else if out
      then outbound_trusted
      else if granted
      then inbound_granted
      else pending_state (find_pending_for m peer none current)

-- What a candidate shows of its root and its transport.
pub record CandidateMaterial : Type 0 where
  pub root_public_key : Option String
  pub transport_fingerprint : Option String
  pub transport_generation : Option ℤ
  pub transport_proof : Option String

module _ (check_signature : NodeId → String → ℤ → String → String → Bool) where
  -- the proof of the candidate holds under the stored root
  abbrev pub proven : NodeId → TrustedPeer → CandidateMaterial → Bool
  proven peer t c =
      truthy c.transport_fingerprint
      && verified check_signature peer (text_of t.material.root_public_key) c.transport_generation
          (text_of c.transport_fingerprint) c.transport_proof

  -- the classification against the trusted peer, when the credential is `broken` or not
  abbrev pub classify_trusted : NodeId → TrustedPeer → Bool → CandidateMaterial → RelationshipState
  classify_trusted peer t broken c =
      let established = if broken then repair_required else outbound_trusted in
      if not (truthy t.material.root_public_key)
      then identity_conflict
      else if not (c.root_public_key == t.material.root_public_key)
      then identity_conflict
      else if c.transport_fingerprint == t.material.transport_fingerprint
      then established
      else if proven peer t c && is_newer c.transport_generation t.material.transport_generation
      then established
      else if proven peer t c
      then repair_required
      else identity_conflict

  unfoldable pub classify_trusted_candidate :
      {F : Type 0} ⦃fl : Floats F⦄
      → PairingManager F
      → NodeId
      → CandidateMaterial
      → F
      → RelationshipState
  classify_trusted_candidate m peer c current = elim (lookup peer m.trusted) [
    | none ↦ relationship m peer current
    | some t ↦ classify_trusted peer t (is_auth_broken m peer) c
  ]
