-- ===== src/Pairing/Approval.antt =====
-- Approvals of a pairing in src/expra_connect/runtime/core.py.
use expra_connect.Prelude.{
  ◌≡◌, ◌≢◌, Dict, refl, ◌∙◌, sym, ap, String, string_eq, option_eq, ◌==◌, Bool, true, false, not,
  Option, Result, ok, err, Error, List, put, any, Floats, arith, inl, inr, Bool-cases, Result-split,
}
use expra_connect.Identity.{NodeId}
use expra_connect.Pairing.{PendingPairing, PeerGrant, PairingManager, approve, active, grant_for}
use expra_connect.Pairing.Relationship.{snapshot, restore_snapshot}
use expra_connect.Pairing.Target.{
  Target, WirePeerGrant, wire_grants, with_service, after_refresh, approve_pairing, approve_saved,
  refreshed, refresh_live_grants, project_registry_trust,
}
use expra_connect.Pairing.Wire.{wire_grants-put, refreshed-ok}

module _ {F : Type 0} ⦃fl : Floats F⦄ where
  -- `approve_pairing` that returns: what it did.
  pub record IsApproved (s n : Target F) (i : String) (permissions : List String) (now : F)
      : Type 0 where
    pub transaction : PendingPairing F
    pub was_active : active s.pairing i now ≡ ok transaction
    pub read_only : any (λ p. not (p == "read_state")) permissions ≡ false
    pub grants : n.pairing ≡ record s.pairing {
      grants = put transaction.peer_id (grant_for transaction permissions) s.pairing.grants;
    }
    pub kept : n.pending_permissions ≡ s.pending_permissions
    pub live : refreshed n.pairing s.service ≡ ok n.service

  approve_result :
      (m n : PairingManager F) (i : String) (permissions : List String) (now : F) (g : PeerGrant)
      → approve m i permissions now ≡ ok (g, n)
      → (t : PendingPairing F) × (active m i now ≡ ok t)
        × (n ≡ record m { grants = put t.peer_id (grant_for t permissions) m.grants })
  unfolding approve
  approve_result m n i permissions now g h = elim (Result-split (active m i now)) [
    | inl (e, q) ↦ absurd (ground arith)
    | inr (t, q) ↦ (t, q, ground (arith, q, h))
  ]

  after_refresh_result :
      (s n : Target F) (k g : PeerGrant) (r : Result (Option (Dict NodeId WirePeerGrant)))
      → after_refresh k (with_service s r) ≡ (ok g, n)
      → (k ≡ g)
        × (r ≡ ok n.service)
        × (n.pairing ≡ s.pairing)
        × (n.pending_permissions ≡ s.pending_permissions)
  after_refresh_result s n k g (err e) h = absurd (ground arith)
  after_refresh_result s n k g (ok live) h = (
    ground arith,
    ap (λ x. ok x.1.service) h,
    sym (ap (λ x. x.1.pairing) h),
    sym (ap (λ x. x.1.pending_permissions) h),
  )

  approve_saved_result :
      (s n : Target F) (saved : Bool) (b : Result (PeerGrant × PairingManager F)) (g : PeerGrant)
      → approve_saved s saved b ≡ (ok g, n)
      → (m : PairingManager F) × (b ≡ ok (g, m))
        × (n.pairing ≡ m)
        × (n.pending_permissions ≡ s.pending_permissions)
        × (refreshed m s.service ≡ ok n.service)
  unfolding refresh_live_grants project_registry_trust
  approve_saved_result s n saved (err e) g h = absurd (ground arith)
  approve_saved_result s n false (ok (k, m)) g h = absurd (ground arith)
  approve_saved_result s n true (ok (k, m)) g h =
      let d = after_refresh_result _ n k g (refreshed m s.service) h in
      (m, ap (λ x. ok (x, m)) d.0, d.2, d.3, d.1)

  pub approve_pairing_result :
      (s n : Target F) (i : String) (permissions : List String) (now : F) (saved : Bool)
      (g : PeerGrant)
      → approve_pairing s i permissions now saved ≡ (ok g, n)
      → IsApproved s n i permissions now
  unfolding approve_pairing
  approve_pairing_result s n i permissions now saved g h =
      elim (Bool-cases (any (λ p. not (p == "read_state")) permissions)) [
        | inl w ↦ absurd (ground arith)
        | inr w ↦
            let k =
              approve_saved_result s n saved (approve s.pairing i permissions now) g
                (ground arith) in
            let a = approve_result s.pairing k.0 i permissions now g k.1 in
            record {
              transaction = a.0;
              was_active = a.1;
              read_only = w;
              grants = k.2 ∙ a.2;
              kept = k.3;
              live = ap (λ x. refreshed x s.service) k.2 ∙ k.4;
            }
      ]

  after_refresh_returns :
      (s n : Target F) (k : PeerGrant) (e : Error) (r : Result (Option (Dict NodeId WirePeerGrant)))
      → after_refresh k (with_service s r) ≡ (err e, n)
      → r ≡ err e
  after_refresh_returns s n k e (err x) h = ground arith
  after_refresh_returns s n k e (ok live) h = absurd (ground arith)

  approve_saved_raises :
      (s n : Target F) (saved : Bool) (b : Result (PeerGrant × PairingManager F)) (e : Error)
      → ((g : PeerGrant) (m : PairingManager F)
          → b ≡ ok (g, m)
          → (restore_snapshot m (snapshot s.pairing) ≡ s.pairing) × (refreshed m s.service ≢ err e))
      → approve_saved s saved b ≡ (err e, n)
      → (n.pairing ≡ s.pairing)
        × (n.pending_permissions ≡ s.pending_permissions)
        × (n.service ≡ s.service)
  unfolding refresh_live_grants project_registry_trust
  approve_saved_raises s n saved (err x) e k h = (
    sym (ap (λ x. x.1.pairing) h),
    sym (ap (λ x. x.1.pending_permissions) h),
    sym (ap (λ x. x.1.service) h),
  )
  approve_saved_raises s n false (ok (g, m)) e k h = (
    sym (ap (λ x. x.1.pairing) h) ∙ (k g m refl).0,
    sym (ap (λ x. x.1.pending_permissions) h),
    sym (ap (λ x. x.1.service) h),
  )
  approve_saved_raises s n true (ok (g, m)) e k h =
      absurd ((k g m refl).1 (after_refresh_returns _ n g e (refreshed m s.service) h))

  -- After `approve_pairing` that raises, where the service takes the grants there are, the pairing
  -- and what was kept for it are as before.
  pub approve_pairing_raises :
      (s n : Target F) (i : String) (permissions : List String) (now : F) (saved : Bool) (e : Error)
      (w : Dict NodeId WirePeerGrant)
      → wire_grants s.pairing.grants ≡ ok w
      → approve_pairing s i permissions now saved ≡ (err e, n)
      → (n.pairing ≡ s.pairing)
        × (n.pending_permissions ≡ s.pending_permissions)
        × (n.service ≡ s.service)
  unfolding approve_pairing restore_snapshot snapshot
  approve_pairing_raises s n i permissions now saved e w known h =
      elim (Bool-cases (any (λ p. not (p == "read_state")) permissions)) [
        | inl x ↦ ground (arith, h, x)
        | inr x ↦
            approve_saved_raises s n saved (approve s.pairing i permissions now) e
              (λ g m q.
                let a = approve_result s.pairing m i permissions now g q in
                let v =
                  wire_grants-put a.0.peer_id (grant_for a.0 permissions) s.pairing.grants w x
                    known in
                let u = refreshed-ok m s.service v.0 (ap (λ y. wire_grants y.grants) a.2 ∙ v.1) in
                (rw a.2 refl, λ f. absurd (ground (arith, f, u.1))))
              (ground arith)
      ]
