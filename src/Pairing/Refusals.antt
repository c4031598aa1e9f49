-- ===== src/Pairing/Refusals.antt =====
-- What src/expra_connect/pairing/target.py leaves behind when it refuses a request.
use expra_connect.Prelude.{
  ◌≡◌, refl, ◌∙◌, sym, subst, ap, String, string_eq, ◌==◌, ◌&&◌, Bool, true, false, Option, none,
  some, Result, ok, err, Error, List, map, lookup, put, find?, find?_holds, find?-none,
  find?-of_any, if◌then◌else◌, Floats, ℤ, arith, inl, inr, Bool-cases, Option-cases, Result-split,
  lookup-put, lookup-erase,
}
use text.Mathlib.TextEquality.{eq_iff}
use expra_connect.Identity.{NodeId}
use expra_connect.Pairing.{
  Direction, inbound, Intent, is_direction, is_active, is_pending_for, PendingPairing, PeerGrant,
  PairingManager, begin, begin_unless, begun, abort, find_pending, find_pending_for, replay, truthy,
  grant_root_continuous, direction_of, intent_of, Material,
}
use expra_connect.Pairing.Relationship.{get_grant}
use expra_connect.Pairing.Single.{is_pending_earlier}
use expra_connect.Pairing.Target.{
  Target, PairingRequest, Outside, Outcome, PairingResponse, refused, request_material,
  pairing_response, published, begun_for, fresh_at, handle_fresh, handle_granted,
  handle_pairing_request_locked, handle_pairing_request,
}

module _ {F : Type 0} ⦃fl : Floats F⦄ where
  -- The transactions, the permissions kept for them and the grants are as before.
  pub record IsUntouched (s n : Target F) (i : String) (peer : NodeId) : Type 0 where
    pub pending : lookup i n.pairing.pending ≡ lookup i s.pairing.pending
    pub permissions : lookup i n.pending_permissions ≡ lookup i s.pending_permissions
    pub trusted : lookup peer n.pairing.trusted ≡ lookup peer s.pairing.trusted
    pub grants : lookup peer n.pairing.grants ≡ lookup peer s.pairing.grants

  same-IsUntouched : (s : Target F) (i : String) (peer : NodeId) → IsUntouched s s i peer
  same-IsUntouched s i peer = record {
    pending = refl;
    permissions = refl;
    trusted = refl;
    grants = refl;
  }

  begin_unless_result :
      (m n : PairingManager F) (r b : Option (PendingPairing F)) (new t : PendingPairing F)
      → begin_unless m r b new ≡ ok (t, n)
      → r ≡ none
      → (t ≡ new) × (n ≡ (begun m new).1)
  begin_unless_result m n (some x) b new t h e = absurd (ground arith)
  begin_unless_result m n none (some x) new t h e = absurd (ground arith)
  begin_unless_result m n none none new t h e = (ground arith, ground arith)

  -- What replays a transaction repeats an active one of the direction.
  replay-none :
      (m : PairingManager F) (peer : NodeId) (secret : String) (d : Direction) (i : Intent)
      (asked replayed : F)
      → find_pending_for m peer (some d) asked ≡ none
      → fl.le asked replayed ≡ true
      → replay m peer (some secret) d i replayed ≡ none
  unfolding find_pending find_pending_for
  replay-none m peer secret d i asked replayed free le =
      let test =
        λ (x : PendingPairing F). x.peer_id == peer && x.secret == secret && is_active replayed x in
      let l = map (λ p. p.1) m.pending in
      elim (Option-cases (find? test l)) [
        | inl e ↦ ground arith
        | inr (x, e) ↦ elim (Bool-cases (is_direction x.direction d)) [
          | inr f ↦ ground arith
          | inl own ↦ absurd (
              ground (
                arith,
                find?-none (is_pending_for peer (some d) asked) l free,
                find?-of_any test (is_pending_for peer (some d) asked) l x e (
                    is_pending_earlier peer d asked replayed x le
                      (ground (arith, own, find?_holds test l x e))),
              ))
        ]
      ]

  begin_result :
      (m n : PairingManager F) (peer : NodeId) (secret : String) (material : Material)
      (intent new_id token : String) (asked t u v : F) (x : PendingPairing F)
      → find_pending_for m peer (some inbound) asked ≡ none
      → fl.le asked t ≡ true
      → begin m peer (some secret) material "inbound" intent new_id token t u v ≡ ok (x, n)
      → (x.transaction_id ≡ new_id) × (n ≡ (begun m x).1)
  unfolding begin direction_of
  begin_result m n peer secret material intent new_id token asked t u v x free le h =
      elim (Result-split (intent_of intent)) [
        | inl (e, q) ↦ absurd (ground arith)
        | inr (i, q) ↦
            let new : PendingPairing F = record {
              transaction_id = new_id;
              peer_id = peer;
              secret = if truthy (some secret) then secret else token;
              expires_at = fl.add v m.ttl;
              material = material;
              direction = inbound;
              intent = i;
            } in
            let none_replayed = replay-none m peer secret inbound i asked t free le in
            let k =
              begin_unless_result m n (replay m peer (some secret) inbound i t)
                (find_pending_for m peer (some inbound) u) new x (sym (rw (q, begin) refl) ∙ h)
                none_replayed in
            (ap (λ y. y.transaction_id) k.0, subst (λ y. n ≡ (begun m y).1) (sym k.0) k.1)
      ]

  unpublished-IsUntouched :
      (s : Target F) (t : PendingPairing F) (permissions : List String) (saved : Bool)
      (outcome : Outcome) (i : String) (peer : NodeId) (k : Target F)
      → k ≡ record s {
        pairing = (begun s.pairing t).1;
        pending_permissions = put t.transaction_id permissions s.pending_permissions;
      }
      → lookup t.transaction_id s.pairing.pending ≡ none
      → lookup t.transaction_id s.pending_permissions ≡ none
      → (published k t saved).0 ≡ ok (refused outcome)
      → IsUntouched s (published k t saved).1 i peer
  unfolding pairing_response abort
  unpublished-IsUntouched s t permissions true outcome i peer k e p q h = absurd (ground arith)
  unpublished-IsUntouched s t permissions false outcome i peer k e p q h = rw e (record {
    pending = ground (
      arith,
      lookup-put t.transaction_id i t s.pairing.pending,
      lookup-erase t.transaction_id i (put t.transaction_id t s.pairing.pending),
      eq_iff t.transaction_id i,
    );
    permissions = ground (
      arith,
      lookup-put t.transaction_id i permissions s.pending_permissions,
      lookup-erase t.transaction_id i (put t.transaction_id permissions s.pending_permissions),
      eq_iff t.transaction_id i,
    );
    trusted = refl;
    grants = refl;
  })

  begun_for_err :
      (s : Target F) (r : PairingRequest) (saved : Bool) (e : Error)
      → (begun_for s r saved (err e)).1 ≡ s
  begun_for_err s r saved e = ground arith

  fresh-IsUntouched :
      (s : Target F) (r : PairingRequest) (o : Outside F) (outcome : Outcome) (i : String)
      (peer : NodeId) (b : Result (PendingPairing F × PairingManager F))
      → begin s.pairing r.caller_node_id
          (some r.proposed_secret)
          (request_material r)
          "inbound"
          r.intent
          o.new_id
          o.token
          o.replayed
          o.checked
          o.started
        ≡ b
      → find_pending_for s.pairing r.caller_node_id (some inbound) o.asked ≡ none
      → fl.le o.asked o.replayed ≡ true
      → lookup o.new_id s.pairing.pending ≡ none
      → lookup o.new_id s.pending_permissions ≡ none
      → (begun_for s r o.saved b).0 ≡ ok (refused outcome)
      → IsUntouched s (begun_for s r o.saved b).1 i peer
  fresh-IsUntouched s r o outcome i peer (err e) eb free le p q h =
      rw (begun_for_err s r o.saved e) (same-IsUntouched s i peer)
  fresh-IsUntouched s r o outcome i peer (ok (t, m)) eb free le p q h =
      let k =
        begin_result s.pairing m r.caller_node_id r.proposed_secret (request_material r) r.intent
          o.new_id o.token o.asked o.replayed o.checked o.started t free le eb in
      unpublished-IsUntouched s t r.permissions o.saved outcome i peer _
        (ap
          (λ x. record s {
            pairing = x;
            pending_permissions = put t.transaction_id r.permissions s.pending_permissions;
          })
          k.1)
        (ground (arith, k.0, p)) (ground (arith, k.0, q)) h

  at-IsUntouched :
      (s : Target F) (r : PairingRequest) (o : Outside F) (outcome : Outcome) (i : String)
      (peer : NodeId) (d : Option (PendingPairing F))
      → find_pending_for s.pairing r.caller_node_id (some inbound) o.asked ≡ d
      → fl.le o.asked o.replayed ≡ true
      → lookup o.new_id s.pairing.pending ≡ none
      → lookup o.new_id s.pending_permissions ≡ none
      → (fresh_at s r o d).0 ≡ ok (refused outcome)
      → IsUntouched s (fresh_at s r o d).1 i peer
  at-IsUntouched s r o outcome i peer (some d) e le p q h =
      elim (Bool-cases (d.secret == r.proposed_secret)) [
        | inl w ↦ rw w (same-IsUntouched s i peer)
        | inr w ↦ rw w (same-IsUntouched s i peer)
      ]
  at-IsUntouched s r o outcome i peer none e le p q h = elim (Bool-cases o.callback) [
    | inr w ↦ rw w (same-IsUntouched s i peer)
    | inl w ↦ rw w (fresh-IsUntouched s r o outcome i peer _ refl e le p q (ground arith))
  ]

module _ (check_signature : NodeId → String → ℤ → String → String → Bool) {F : Type 0}
    ⦃fl : Floats F⦄ where
  granted-IsUntouched :
      (s : Target F) (r : PairingRequest) (o : Outside F) (outcome : Outcome) (i : String)
      (peer : NodeId) (g : Option PeerGrant) (fresh : Result (PairingResponse F) × Target F)
      → (fresh.0 ≡ ok (refused outcome) → IsUntouched s fresh.1 i peer)
      → (handle_granted check_signature s r g fresh).0 ≡ ok (refused outcome)
      → IsUntouched s (handle_granted check_signature s r g fresh).1 i peer
  granted-IsUntouched s r o outcome i peer none fresh k h = k h
  granted-IsUntouched s r o outcome i peer (some g) fresh k h =
      let root =
        grant_root_continuous check_signature g r.root_public_key r.transport_generation
          r.transport_fingerprint r.transport_proof in
      elim (Bool-cases root) [
        | inr f ↦ rw f (same-IsUntouched s i peer)
        | inl t ↦ elim (Bool-cases (r.intent == "repair")) [
          | inr f ↦ rw t (rw f (same-IsUntouched s i peer))
          | inl u ↦ rw t (rw u (k (ground arith)))
        ]
      ]

  -- When the target refuses a pairing request, and the clock did not go back and the new id is new,
  -- every transaction, the permissions kept for it, every trusted peer and every grant are as
  -- before; this includes the refusal because the state could not be saved.
  pub refused-IsUntouched :
      (s : Target F) (r : PairingRequest) (busy : Bool) (o : Outside F) (outcome : Outcome)
      (i : String) (peer : NodeId)
      → fl.le o.asked o.replayed ≡ true
      → lookup o.new_id s.pairing.pending ≡ none
      → lookup o.new_id s.pending_permissions ≡ none
      → (handle_pairing_request check_signature s r busy o).0 ≡ ok (refused outcome)
      → IsUntouched s (handle_pairing_request check_signature s r busy o).1 i peer
  unfolding handle_pairing_request handle_pairing_request_locked handle_fresh
  refused-IsUntouched s r true o outcome i peer le p q h = same-IsUntouched s i peer
  refused-IsUntouched s r false o outcome i peer le p q h =
      elim (Bool-cases (r.caller_node_id == s.node_id)) [
        | inl own ↦ rw own (same-IsUntouched s i peer)
        | inr other ↦ rw other (
            granted-IsUntouched s r o outcome i peer (get_grant s.pairing r.caller_node_id)
              (handle_fresh s r o) (at-IsUntouched s r o outcome i peer _ refl le p q)
              (ground arith))
      ]
