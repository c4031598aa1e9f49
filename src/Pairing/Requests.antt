-- ===== src/Pairing/Requests.antt =====
-- The answers of src/expra_connect/pairing/target.py to pairing requests.
use expra_connect.Prelude.{
  ◌≡◌, refl, ◌∙◌, ap, String, string_eq, ◌==◌, Bool, true, false, Option, none, some, Result, ok,
  err, List, Floats, ℤ, arith, inl, inr, Bool-cases,
}
use text.Mathlib.TextEquality.{eq_iff}
use expra_connect.Identity.{NodeId}
use expra_connect.Pairing.{
  inbound, PendingPairing, PeerGrant, PairingManager, begin, find_pending_for,
  grant_root_continuous,
}
use expra_connect.Pairing.Relationship.{get_grant}
use expra_connect.Pairing.Target.{
  Target, PairingRequest, Outside, approved, request_material, pairing_response, begun_for,
  fresh_at, handle_fresh, handle_granted, handle_pairing_request_locked, handle_pairing_request,
}

module _ {F : Type 0} ⦃fl : Floats F⦄ where
  -- Why a request was approved: it repeats the active transaction of the caller, or the host agreed
  -- and the state was saved.
  pub data Agreed (s : Target F) (r : PairingRequest) (o : Outside F) (t : PendingPairing F)
      : Type 0 where
    repeated :
        find_pending_for s.pairing r.caller_node_id (some inbound) o.asked ≡ some t
        → t.secret ≡ r.proposed_secret
        → Agreed s r o t
    accepted : o.callback ≡ true → o.saved ≡ true → Agreed s r o t

  begun_for_saved :
      (s : Target F) (r : PairingRequest) (saved : Bool)
      (b : Result (PendingPairing F × PairingManager F)) (t : PendingPairing F)
      (permissions : List String)
      → (begun_for s r saved b).0 ≡ ok (approved t permissions)
      → saved ≡ true
  begun_for_saved s r true b t permissions h = refl
  begun_for_saved s r false (err e) t permissions h = absurd (ground arith)
  begun_for_saved s r false (ok (x, m)) t permissions h = absurd (ground arith)

  response_transaction :
      (s : Target F) (d t : PendingPairing F) (permissions : List String)
      → pairing_response s d ≡ ok (approved t permissions)
      → d ≡ t
  unfolding pairing_response
  response_transaction s d t permissions h = ground arith

  fresh-Agreed :
      (s : Target F) (r : PairingRequest) (o : Outside F) (t : PendingPairing F)
      (permissions : List String) (d : Option (PendingPairing F))
      → find_pending_for s.pairing r.caller_node_id (some inbound) o.asked ≡ d
      → (fresh_at s r o d).0 ≡ ok (approved t permissions)
      → Agreed s r o t
  fresh-Agreed s r o t permissions (some d) e h =
      elim (Bool-cases (d.secret == r.proposed_secret)) [
        | inr f ↦ absurd (ground arith)
        | inl same ↦
            let is_it : d ≡ t = response_transaction s d t permissions (ground arith) in
            repeated (e ∙ ap some is_it) (ground (arith, is_it, eq_iff d.secret r.proposed_secret))
      ]
  fresh-Agreed s r o t permissions none e h = elim (Bool-cases o.callback) [
    | inr f ↦ absurd (ground arith)
    | inl agrees ↦ accepted agrees (
        begun_for_saved s r o.saved
          (begin s.pairing r.caller_node_id (some r.proposed_secret) (request_material r) "inbound"
            r.intent o.new_id o.token o.replayed o.checked o.started)
          t permissions (ground arith))
  ]

module _ (check_signature : NodeId → String → ℤ → String → String → Bool) {F : Type 0}
    ⦃fl : Floats F⦄ where
  -- The grant that is stored for the caller lets a request go on: there is none, or the request is a
  -- repair and proves that it comes from the same root.
  pub data Continuous (s : Target F) (r : PairingRequest) : Type 0 where
    first : get_grant s.pairing r.caller_node_id ≡ none → Continuous s r
    repairs :
        (g : PeerGrant)
        → get_grant s.pairing r.caller_node_id ≡ some g
        → grant_root_continuous check_signature g r.root_public_key r.transport_generation
            r.transport_fingerprint r.transport_proof
          ≡ true
        → r.intent ≡ "repair"
        → Continuous s r

  granted_agreed :
      (s : Target F) (r : PairingRequest) (o : Outside F) (t : PendingPairing F)
      (permissions : List String) (g : Option PeerGrant)
      → get_grant s.pairing r.caller_node_id ≡ g
      → (handle_granted check_signature s r g (handle_fresh s r o)).0 ≡ ok (approved t permissions)
      → Continuous s r × ((handle_fresh s r o).0 ≡ ok (approved t permissions))
  granted_agreed s r o t permissions none e h = (first e, h)
  granted_agreed s r o t permissions (some g) e h =
      let root =
        grant_root_continuous check_signature g r.root_public_key r.transport_generation
          r.transport_fingerprint r.transport_proof in
      elim (Bool-cases root) [
        | inr f ↦ absurd (ground arith)
        | inl proven ↦ elim (Bool-cases (r.intent == "repair")) [
          | inr f ↦ absurd (ground arith)
          | inl q ↦ (repairs g e proven (ground (arith, eq_iff r.intent "repair")), ground arith)
        ]
      ]

  -- The target approves a pairing request only if no other request is being handled, the caller is
  -- another node, it has no stored grant or asks for a repair and proves the stored root, and it
  -- repeats the secret of the transaction that was found active for it or the host agreed and the
  -- state was saved.
  pub approved_only_if :
      (s : Target F) (r : PairingRequest) (busy : Bool) (o : Outside F) (t : PendingPairing F)
      (permissions : List String)
      → (handle_pairing_request check_signature s r busy o).0 ≡ ok (approved t permissions)
      → (busy ≡ false) × ((r.caller_node_id == s.node_id) ≡ false) × Continuous s r × Agreed s r o t
  unfolding handle_pairing_request handle_pairing_request_locked handle_fresh
  approved_only_if s r busy o t permissions h =
      let k =
        granted_agreed s r o t permissions (get_grant s.pairing r.caller_node_id) refl
          (ground arith) in
      (
        ground arith,
        ground arith,
        k.0,
        fresh-Agreed s r o t permissions
            (find_pending_for s.pairing r.caller_node_id (some inbound) o.asked) refl k.1,
      )
