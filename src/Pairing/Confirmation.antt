-- ===== src/Pairing/Confirmation.antt =====
-- Pairings that src/expra_connect/runtime/core.py confirms.
use expra_connect.Prelude.{
  ◌≡◌, refl, sym, ap, String, string_eq, option_eq, ◌==◌, Bool, true, false, not, Option, none,
  some, Result, ok, err, List, lookup, any, Floats, arith, inl, inr, Bool-cases, lookup-put,
  lookup-erase, same_refl, equal,
}
use expra_connect.Pairing.{PendingPairing, PeerGrant, active, abort, grant_for}
use expra_connect.Pairing.Relationship.{get_grant}
use expra_connect.Pairing.Target.{Target, approve_pairing, same_permissions, refreshed}
use expra_connect.Pairing.Control.{
  PairingControlRequest, is_bound, ended, confirmed, controlled, handle_pairing_control,
}
use expra_connect.Pairing.Approval.{IsApproved, approve_pairing_result}

module _ {F : Type 0} ⦃fl : Floats F⦄ where
  -- The transaction was active and is the one that the request is bound to; the caller has exactly
  -- the grant that was asked for, the transaction is over, and the service has the grants.
  pub record IsGranted (s n : Target F) (r : PairingControlRequest F) (now : F) : Type 0 where
    pub transaction : PendingPairing F
    pub permissions : List String
    pub was_active : active s.pairing r.transaction_id now ≡ ok transaction
    pub bound : is_bound transaction r ≡ true
    pub of_caller : transaction.peer_id ≡ r.caller_node_id
    pub of_identity : transaction.material.identity_fingerprint ≡ some r.identity_fingerprint
    pub of_transport : transaction.material.transport_fingerprint ≡ some r.transport_fingerprint
    pub of_secret : transaction.secret ≡ r.secret
    pub same_expiry : fl.eq transaction.expires_at r.expires_at ≡ true
    pub kept : lookup r.transaction_id s.pending_permissions ≡ some permissions
    pub as_asked : same_permissions permissions r.permissions ≡ true
    pub read_only : any (λ p. not (p == "read_state")) permissions ≡ false
    pub granted : get_grant n.pairing transaction.peer_id ≡ some (grant_for transaction permissions)
    pub is_over : lookup r.transaction_id n.pairing.pending ≡ none
    pub live : refreshed n.pairing s.service ≡ ok n.service

  confirmed_grants :
      (s n : Target F) (r : PairingControlRequest F) (now : F) (t : PendingPairing F)
      (permissions : List String) (second : Bool) (a : Result PeerGrant × Target F)
      → lookup r.transaction_id s.pairing.pending ≡ some t
      → lookup r.transaction_id s.pending_permissions ≡ some permissions
      → same_permissions permissions r.permissions ≡ true
      → is_bound t r ≡ true
      → ((g : PeerGrant) (k : Target F)
          → a ≡ (ok g, k)
          → IsApproved s k r.transaction_id permissions now)
      → confirmed s r.transaction_id permissions second a ≡ (true, n)
      → IsGranted s n r now
  unfolding abort get_grant active
  confirmed_grants s n r now t permissions second (err e, k) p q w v c h = absurd (ground arith)
  confirmed_grants s n r now t permissions false (ok g, k) p q w v c h = absurd (ground arith)
  confirmed_grants s n r now t permissions true (ok g, k) p q w v c h =
      let d = c g k refl in
      let it : n ≡ ended k r.transaction_id = sym (ap (λ x. x.1) h) in
      let same : d.transaction ≡ t = ground (arith, d.was_active, p) in
      rw it (record {
        transaction = d.transaction;
        permissions = permissions;
        was_active = d.was_active;
        bound = rw same v;
        of_caller = rw same (equal t.peer_id r.caller_node_id (ground arith));
        of_identity =
            rw same
              (equal t.material.identity_fingerprint (some r.identity_fingerprint) (ground arith));
        of_transport =
            rw same (
              equal t.material.transport_fingerprint (some r.transport_fingerprint) (ground arith));
        of_secret = rw same (equal t.secret r.secret (ground arith));
        same_expiry = rw same (ground arith);
        kept = q;
        as_asked = w;
        read_only = d.read_only;
        granted = ground (
          arith,
          ap (λ x. x.grants) d.grants,
          lookup-put d.transaction.peer_id d.transaction.peer_id
              (grant_for d.transaction permissions) s.pairing.grants,
          same_refl d.transaction.peer_id,
        );
        is_over = ground (
          arith,
          lookup-erase r.transaction_id r.transaction_id k.pairing.pending,
          same_refl r.transaction_id,
        );
        live = d.live;
      })

  controlled_grants :
      (s n : Target F) (r : PairingControlRequest F) (now : F) (first second : Bool)
      (p : Option (PendingPairing F)) (q : Option (List String))
      → lookup r.transaction_id s.pairing.pending ≡ p
      → lookup r.transaction_id s.pending_permissions ≡ q
      → (r.operation == "pair_abort") ≡ false
      → controlled s r now first second p q ≡ (true, n)
      → IsGranted s n r now
  controlled_grants s n r now first second none q ep eq op h = absurd (ground arith)
  controlled_grants s n r now first second (some t) none ep eq op h = absurd (ground arith)
  controlled_grants s n r now first second (some t) (some permissions) ep eq op h =
      elim (Bool-cases (same_permissions permissions r.permissions)) [
        | inr w ↦ absurd (ground arith)
        | inl w ↦ elim (Bool-cases (is_bound t r)) [
          | inr v ↦ absurd (ground arith)
          | inl v ↦ elim (Bool-cases (r.operation == "pair_confirm")) [
            | inr u ↦ absurd (ground arith)
            | inl u ↦
                confirmed_grants s n r now t permissions second
                  (approve_pairing s r.transaction_id permissions now first) ep eq w v
                  (λ g k. approve_pairing_result s k r.transaction_id permissions now first g)
                  (ground arith)
          ]
        ]
      ]

  -- A request other than an abort that is answered with true presents the node, the fingerprints,
  -- the secret and the expiry of an active transaction and asks for the permissions that were kept
  -- for it, which are read-only; the peer then has the grant of exactly these, the transaction is
  -- over and the service has the grants.
  pub confirmation-IsGranted :
      (s n : Target F) (r : PairingControlRequest F) (now : F) (first second : Bool)
      → (r.operation == "pair_abort") ≡ false
      → handle_pairing_control s r now first second ≡ (true, n)
      → IsGranted s n r now
  unfolding handle_pairing_control
  confirmation-IsGranted s n r now first second op h =
      controlled_grants s n r now first second (lookup r.transaction_id s.pairing.pending)
        (lookup r.transaction_id s.pending_permissions) refl refl op h
