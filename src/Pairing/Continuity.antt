-- ===== src/Pairing/Continuity.antt =====
-- When a candidate continues the trust of a peer, in src/expra_connect/pairing/manager.py.
use expra_connect.Prelude.{
  ◌≡◌, String, string_eq, option_eq, int_eq, Bool, true, false, some, lookup, Floats, ℤ, arith, ◌↔◌,
  ◌⊎◌, option_beq_iff,
}
use expra_connect.Identity.{NodeId}
use expra_connect.Pairing.{
  TrustedPeer, outbound_trusted, PairingManager, truthy, is_newer, is_auth_broken,
  candidate_transport_generation_allowed,
}
use expra_connect.Pairing.Relationship.{
  CandidateMaterial, proven, classify_trusted, classify_trusted_candidate,
}

module _ (check_signature : NodeId → String → ℤ → String → String → Bool) where
  -- The candidate shows the root that is stored for the peer, with the transport that is stored or
  -- with a later one that the root signed.
  pub record Continues (peer : NodeId) (t : TrustedPeer) (c : CandidateMaterial) : Type 0 where
    pub has_root : truthy t.material.root_public_key ≡ true
    pub same_root : c.root_public_key ≡ t.material.root_public_key
    pub transport :
        (c.transport_fingerprint ≡ t.material.transport_fingerprint)
        ⊎ ((proven check_signature peer t c ≡ true)
            × (is_newer c.transport_generation t.material.transport_generation ≡ true))

  classified-Continues :
      (peer : NodeId) (t : TrustedPeer) (broken : Bool) (c : CandidateMaterial)
      → classify_trusted check_signature peer t broken c ≡ outbound_trusted
      → (broken ≡ false) × Continues peer t c
  classified-Continues peer t broken c h =
      let root = option_beq_iff c.root_public_key t.material.root_public_key in
      let transport = option_beq_iff c.transport_fingerprint t.material.transport_fingerprint in
      (
        ground arith,
        record {
          has_root = ground arith;
          same_root = ground (arith, root);
          transport = ground (arith, root, transport);
        },
      )

  Continues-classified :
      (peer : NodeId) (t : TrustedPeer) (c : CandidateMaterial)
      → Continues peer t c
      → classify_trusted check_signature peer t false c ≡ outbound_trusted
  Continues-classified peer t c k = ground (
    arith,
    k.has_root,
    k.same_root,
    k.transport,
    option_beq_iff c.root_public_key t.material.root_public_key,
    option_beq_iff c.transport_fingerprint t.material.transport_fingerprint,
  )

  -- A candidate of a trusted peer is classified as trusted exactly when the credential is not known
  -- to be broken and the candidate shows the stored root, which is not empty, with the stored
  -- transport or with a newer generation that the root signed.
  pub classify_trusted_candidate_iff :
      {F : Type 0} ⦃fl : Floats F⦄ (m : PairingManager F) (peer : NodeId) (t : TrustedPeer)
      (c : CandidateMaterial) (now : F)
      → lookup peer m.trusted ≡ some t
      → (classify_trusted_candidate check_signature m peer c now ≡ outbound_trusted)
        ↔ ((is_auth_broken m peer ≡ false) × Continues peer t c)
  unfolding classify_trusted_candidate
  classify_trusted_candidate_iff m peer t c now e =
      rw (e, classify_trusted_candidate)
        (
          λ h. classified-Continues peer t (is_auth_broken m peer) c h,
          λ k. rw (k.0, classify_trusted_candidate) (Continues-classified peer t c k.1),
        )

  -- x
  pub trusted_candidate_is_allowed :
      {F : Type 0} ⦃fl : Floats F⦄ (m : PairingManager F) (peer : NodeId) (t : TrustedPeer)
      (c : CandidateMaterial) (now : F)
      → lookup peer m.trusted ≡ some t
      → classify_trusted_candidate check_signature m peer c now ≡ outbound_trusted
      → candidate_transport_generation_allowed check_signature peer t.material
          c.transport_fingerprint c.transport_generation c.transport_proof
        ≡ true
  unfolding candidate_transport_generation_allowed
  trusted_candidate_is_allowed m peer t c now e h =
      let k = ((classify_trusted_candidate_iff m peer t c now e).0 h).1 in
      ground (
        arith,
        k.has_root,
        k.transport,
        option_beq_iff c.transport_fingerprint t.material.transport_fingerprint,
      )
