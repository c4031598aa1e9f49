-- ===== src/Pairing/Trust.antt =====
-- When a peer becomes trusted by the methods of src/expra_connect/pairing/manager.py.
use expra_connect.Prelude.{
  ◌≡◌, refl, sym, subst, String, string_eq, ◌==◌, ◌||◌, false, not, none, some, ok, lookup, Floats,
  arith, ◌⊎◌, inl, inr, lookup-put, lookup-erase, Bool-cases, same_refl, Result-split, Option-cases,
}
use text.Mathlib.TextEquality.{eq_iff}
use expra_connect.Identity.{NodeId}
use expra_connect.Pairing.{
  Material, PendingPairing, TrustedPeer, PeerGrant, PairingManager, same_material, begin, approve,
  receive_request, confirm, accept_grant, abort, prune_expired, revoke, revoke_trusted,
  revoke_grant, active, trust,
}
use expra_connect.Pairing.Relationship.{mark_auth_failure, mark_auth_ok}
use expra_connect.Pairing.Calls.{
  Call, begins, approves, receives, confirms, accepts, aborts, prunes, revokes, revokes_trusted,
  revokes_grant, fails_auth, passes_auth, left, call, begin_cases,
}

module _ {F : Type 0} ⦃fl : Floats F⦄ where
  -- The calls that end a transaction with trust, the id that they name and their reading of the clock.
  pub data Ends : Call F → String → F → Type 0 where
    confirming : (i : String) (now : F) → Ends (confirms i now) i now
    accepting :
        (i : String) (peer : NodeId) (g : PeerGrant) (material : Material) (now : F)
        → Ends (accepts i peer g material now) i now

  -- The transaction that the call names: it was pending in `m` and active at the call's reading of
  -- the clock, it is with the peer and has the secret of the trust, and `n` has it no more.
  pub record IsConsumed (m n : PairingManager F) (c : Call F) (peer : NodeId) (t : TrustedPeer)
      : Type 0 where
    pub transaction_id : String
    pub transaction : PendingPairing F
    pub current : F
    pub ends : Ends c transaction_id current
    pub was_pending : lookup transaction_id m.pending ≡ some transaction
    pub was_active : fl.le transaction.expires_at current ≡ false
    pub of_peer : transaction.peer_id ≡ peer
    pub of_secret : t.secret ≡ transaction.secret
    pub is_gone : lookup transaction_id n.pending ≡ none

  pub active_is_pending :
      (m : PairingManager F) (i : String) (tx : PendingPairing F) (now : F)
      → active m i now ≡ ok tx
      → (lookup i m.pending ≡ some tx) × (fl.le tx.expires_at now ≡ false)
  unfolding active
  active_is_pending m i tx now a = ground arith

  fresh_trust :
      (m : PairingManager F) (i : String) (tx : PendingPairing F) (now : F) (new : TrustedPeer)
      (p : NodeId) (t : TrustedPeer) (c : Call F)
      → Ends c i now
      → active m i now ≡ ok tx
      → tx.peer_id ≡ new.peer_id
      → new.secret ≡ tx.secret
      → lookup p (trust m i new).1.trusted ≡ some t
      → (lookup p m.trusted ≡ some t) ⊎ IsConsumed m (trust m i new).1 c p t
  fresh_trust m i tx now new p t c k a e s h = elim (Bool-cases (new.peer_id == p)) [
    | inr f ↦ inl (ground (arith, lookup-put new.peer_id p new m.trusted))
    | inl same ↦ inr (record {
      transaction_id = i;
      transaction = tx;
      current = now;
      ends = k;
      was_pending = (active_is_pending m i tx now a).0;
      was_active = (active_is_pending m i tx now a).1;
      of_peer = ground (arith, eq_iff new.peer_id p);
      of_secret = ground (arith, lookup-put new.peer_id p new m.trusted);
      is_gone = ground (arith, lookup-erase i i m.pending, same_refl i);
    })
  ]

  -- `n` is `m` after the transaction `i` made a peer trusted.
  pub record IsTrusting (m n : PairingManager F) (i : String) (now : F) : Type 0 where
    pub transaction : PendingPairing F
    pub peer : TrustedPeer
    pub was_active : active m i now ≡ ok transaction
    pub same_peer : transaction.peer_id ≡ peer.peer_id
    pub same_secret : peer.secret ≡ transaction.secret
    pub result : n ≡ (trust m i peer).1

  pub confirm_cases :
      (m : PairingManager F) (i : String) (now : F)
      → (left m (confirm m i now) ≡ m) ⊎ IsTrusting m (left m (confirm m i now)) i now
  unfolding confirm
  confirm_cases m i now = elim (Result-split (active m i now)) [
    | inl (e, q) ↦ rw q (inl refl)
    | inr (tx, q) ↦ elim (Option-cases (lookup tx.peer_id m.grants)) [
      | inl w ↦ inl (ground arith)
      | inr (g, w) ↦ inr (record {
        transaction = tx;
        peer = record {
          peer_id = tx.peer_id;
          secret = tx.secret;
          permissions = g.permissions;
          material = g.material;
        };
        was_active = q;
        same_peer = refl;
        same_secret = refl;
        result = ground arith;
      })
    ]
  ]

  pub accept_cases :
      (m : PairingManager F) (i : String) (peer : NodeId) (g : PeerGrant) (material : Material)
      (now : F)
      → (left m (accept_grant m i peer g material now) ≡ m)
        ⊎ IsTrusting m (left m (accept_grant m i peer g material now)) i now
  unfolding accept_grant
  accept_cases m i peer g material now = elim (Result-split (active m i now)) [
    | inl (e, q) ↦ rw q (inl refl)
    | inr (tx, q) ↦
        elim (Bool-cases (not (tx.peer_id == peer) || not (g.caller_id == m.local_id))) [
          | inl w ↦ inl (rw q (rw w refl))
          | inr w ↦ elim (Bool-cases (same_material g.material tx.material)) [
            | inr v ↦ inl (rw q (rw w (rw v refl)))
            | inl v ↦ inr (record {
              transaction = tx;
              peer = record {
                peer_id = peer;
                secret = tx.secret;
                permissions = g.permissions;
                material = material;
              };
              was_active = q;
              same_peer = ground (arith, eq_iff tx.peer_id peer);
              same_secret = refl;
              result = rw q (rw w (rw v refl));
            })
          ]
        ]
  ]

  trusting_trusts :
      (m n : PairingManager F) (i : String) (now : F) (c : Call F) (p : NodeId) (t : TrustedPeer)
      → Ends c i now
      → (n ≡ m) ⊎ IsTrusting m n i now
      → lookup p n.trusted ≡ some t
      → (lookup p m.trusted ≡ some t) ⊎ IsConsumed m n c p t
  trusting_trusts m n i now c p t ends (inl e) h = inl (ground (arith, e))
  trusting_trusts m n i now c p t ends (inr k) h =
      subst
        (λ x. lookup p x.trusted ≡ some t → (lookup p m.trusted ≡ some t) ⊎ IsConsumed m x c p t)
        (sym k.result)
        (fresh_trust m i k.transaction now k.peer p t c ends k.was_active k.same_peer k.same_secret)
        h

  -- A peer that is trusted after a method of the pairing manager that begins, approves, receives,
  -- confirms, accepts, aborts, prunes, revokes or marks an authentication was trusted with the same
  -- record before, or the method confirms or accepts a transaction with the peer and the same
  -- secret, which was pending and not expired at the method's own reading of the clock, and is
  -- gone.
  pub trust_needs_transaction :
      (m : PairingManager F) (c : Call F) (p : NodeId) (t : TrustedPeer)
      → lookup p (call m c).trusted ≡ some t
      → (lookup p m.trusted ≡ some t) ⊎ IsConsumed m (call m c) c p t
  unfolding call begin approve receive_request abort prune_expired revoke revoke_trusted
      revoke_grant mark_auth_failure mark_auth_ok
  trust_needs_transaction m (begins peer secret material direction intent new_id token t0 u v) p t
        h =
      elim (begin_cases m peer secret material direction intent new_id token t0 u v) [
        | inl same ↦ inl (ground (arith, same, h))
        | inr b ↦ inl (ground (arith, b.is_begun, h))
      ]
  trust_needs_transaction m (approves i permissions now) p t h = inl (ground (arith, h))
  trust_needs_transaction m (receives caller q now) p t h = inl (ground (arith, h))
  trust_needs_transaction m (confirms i now) p t h =
      trusting_trusts m (left m (confirm m i now)) i now (confirms i now) p t (confirming i now)
        (confirm_cases m i now) h
  trust_needs_transaction m (accepts i peer grant material now) p t h =
      trusting_trusts m (left m (accept_grant m i peer grant material now)) i now
        (accepts i peer grant material now) p t (accepting i peer grant material now)
        (accept_cases m i peer grant material now) h
  trust_needs_transaction m (aborts i) p t h = inl h
  trust_needs_transaction m (prunes now) p t h = inl h
  trust_needs_transaction m (revokes peer) p t h =
      inl (ground (arith, lookup-erase peer p m.trusted))
  trust_needs_transaction m (revokes_trusted peer) p t h =
      inl (ground (arith, lookup-erase peer p m.trusted))
  trust_needs_transaction m (revokes_grant peer) p t h = inl h
  trust_needs_transaction m (fails_auth peer) p t h = inl (ground (arith, h))
  trust_needs_transaction m (passes_auth peer) p t h = inl h
