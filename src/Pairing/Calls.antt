-- ===== src/Pairing/Calls.antt =====
-- The methods of `PairingManager` of src/expra_connect/pairing/manager.py that establish or end a
-- relationship, as calls.
use expra_connect.Prelude.{
  ◌≡◌, refl, String, string_eq, Option, none, some, Result, ok, err, List, if◌then◌else◌, Floats,
  ◌⊎◌, inl, inr, Result-split,
}
use expra_connect.Identity.{NodeId}
use expra_connect.Pairing.{
  Material, PendingPairing, PeerGrant, PairingManager, begin, approve, receive_request, confirm,
  accept_grant, abort, prune_expired, revoke, revoke_trusted, revoke_grant, begin_unless, replay,
  find_pending_for, begun, direction_of, intent_of, truthy, text_of,
}
use expra_connect.Pairing.Relationship.{mark_auth_failure, mark_auth_ok}

-- One call of a method, with the readings of the clock that it takes.
pub data Call (F : Type 0) : Type 0 where
  begins :
      NodeId → Option String → Material → String → String → String → String → F → F → F → Call F
  approves : String → List String → F → Call F
  receives : NodeId → PendingPairing F → F → Call F
  confirms : String → F → Call F
  accepts : String → NodeId → PeerGrant → Material → F → Call F
  aborts : String → Call F
  prunes : F → Call F
  revokes : NodeId → Call F
  revokes_trusted : NodeId → Call F
  revokes_grant : NodeId → Call F
  fails_auth : NodeId → Call F
  passes_auth : NodeId → Call F

-- the manager after a method that returns or raises
abbrev pub left :
    {F A : Type 0} → PairingManager F → Result (A × PairingManager F) → PairingManager F
left m (err e) = m
left m (ok (a, n)) = n

module _ {F : Type 0} ⦃fl : Floats F⦄ where
  unfoldable pub call : PairingManager F → Call F → PairingManager F
  call m (begins peer secret material direction intent new_id token t u v) =
      left m (begin m peer secret material direction intent new_id token t u v)
  call m (approves i permissions t) = left m (approve m i permissions t)
  call m (receives caller p t) = left m (receive_request m caller p t)
  call m (confirms i t) = left m (confirm m i t)
  call m (accepts i peer grant material t) = left m (accept_grant m i peer grant material t)
  call m (aborts i) = abort m i
  call m (prunes t) = (prune_expired m t).1
  call m (revokes peer) = revoke m peer
  call m (revokes_trusted peer) = revoke_trusted m peer
  call m (revokes_grant peer) = revoke_grant m peer
  call m (fails_auth peer) = mark_auth_failure m peer
  call m (passes_auth peer) = mark_auth_ok m peer

  begin_unless_cases :
      (m : PairingManager F) (r b : Option (PendingPairing F)) (new : PendingPairing F)
      → (left m (begin_unless m r b new) ≡ m)
        ⊎ ((b ≡ none) × (left m (begin_unless m r b new) ≡ (begun m new).1))
  begin_unless_cases m (some t) b new = inl refl
  begin_unless_cases m none (some b) new = inl refl
  begin_unless_cases m none none new = inr (refl, refl)

  -- `n` is `m` with a new transaction, whose peer had none that was active in its direction.
  pub record IsBegun (m n : PairingManager F) (checked : F) : Type 0 where
    pub transaction : PendingPairing F
    pub none_active :
        find_pending_for m transaction.peer_id (some transaction.direction) checked ≡ none
    pub is_begun : n ≡ (begun m transaction).1

  pub begin_cases :
      (m : PairingManager F) (peer : NodeId) (secret : Option String) (material : Material)
      (direction intent new_id token : String) (t u v : F)
      → (left m (begin m peer secret material direction intent new_id token t u v) ≡ m)
        ⊎ IsBegun m (left m (begin m peer secret material direction intent new_id token t u v)) u
  unfolding begin
  begin_cases m peer secret material direction intent new_id token t u v =
      elim (Result-split (direction_of direction)) [
        | inl (e, q) ↦ inl (rw q refl)
        | inr (d, q) ↦ elim (Result-split (intent_of intent)) [
          | inl (e, w) ↦ inl (rw q (rw w refl))
          | inr (i, w) ↦
              let new : PendingPairing F = record {
                transaction_id = new_id;
                peer_id = peer;
                secret = if truthy secret then text_of secret else token;
                expires_at = fl.add v m.ttl;
                material = material;
                direction = d;
                intent = i;
              } in
              elim (begin_unless_cases m (replay m peer secret d i t)
                (find_pending_for m peer (some d) u) new) [
                  | inl same ↦ inl (rw q (rw w same))
                  | inr (free, r) ↦
                      inr
                        (record { transaction = new; none_active = free; is_begun = rw q (rw w r) })
                ]
        ]
      ]
