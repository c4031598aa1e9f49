-- ===== src/Pairing/Directions.antt =====
-- The two directions of a relationship in src/expra_connect/pairing/manager.py.
use expra_connect.Prelude.{
  ◌≡◌, refl, sym, ap, not, filter, Bool, Bool-cases, ◌∙◌, String, string_eq, ◌==◌, false, true,
  ◌&&◌, none, some, [], ◌∷◌, map, Dict, find?, if◌then◌else◌, Floats, arith, lookup-erase, inl, inr,
}
use text.Mathlib.TextEquality.{eq_iff}
use expra_connect.Identity.{NodeId}
use expra_connect.Pairing.{
  Direction, outbound, inbound, PendingPairing, PairingManager, is_pending_for, is_direction,
  find_pending_for, pending_without, revoke_trusted, revoke_grant,
}
use expra_connect.Pairing.Relationship.{get_trusted, get_grant}

-- A search through the values that are kept, where each that it accepts is kept, or none is.
find?-kept :
    {K A : Type 0} (f keep : A → Bool) (l : Dict K A)
    → ((a : A) → f a ≡ true → keep a ≡ true)
    → find? f (map (λ p. p.1) (filter (λ p. keep p.1) l)) ≡ find? f (map (λ p. p.1) l)
find?-kept f keep [] h = refl
find?-kept f keep ((k, a) ∷ l) h = elim (Bool-cases (keep a)) [
  | inl b ↦ ground (arith, find?-kept f keep l h)
  | inr b ↦ ground (arith, find?-kept f keep l h, h a)
]

find?-dropped :
    {K A : Type 0} (f keep : A → Bool) (l : Dict K A)
    → ((a : A) → f a ≡ true → keep a ≡ false)
    → find? f (map (λ p. p.1) (filter (λ p. keep p.1) l)) ≡ none
find?-dropped f keep [] h = refl
find?-dropped f keep ((k, a) ∷ l) h = elim (Bool-cases (keep a)) [
  | inl b ↦ ground (arith, find?-dropped f keep l h, h a)
  | inr b ↦ ground (arith, find?-dropped f keep l h)
]

one_direction :
    (a d e : Direction)
    → is_direction e d ≡ false
    → is_direction a e ≡ true
    → is_direction a d ≡ false
one_direction outbound outbound outbound h k = absurd (ground arith)
one_direction outbound outbound inbound h k = absurd (ground arith)
one_direction outbound inbound e h k = refl
one_direction inbound outbound e h k = refl
one_direction inbound inbound outbound h k = absurd (ground arith)
one_direction inbound inbound inbound h k = absurd (ground arith)

same_direction :
    (a d e : Direction)
    → is_direction e d ≡ true
    → is_direction a e ≡ true
    → is_direction a d ≡ true
same_direction a outbound outbound h k = k
same_direction a inbound inbound h k = k
same_direction a outbound inbound h k = absurd (ground arith)
same_direction a inbound outbound h k = absurd (ground arith)

module _ {F : Type 0} ⦃fl : Floats F⦄ where
  is_pending_for_facts :
      (q : NodeId) (e : Direction) (now : F) (t : PendingPairing F)
      → is_pending_for q (some e) now t ≡ true
      → ((t.peer_id == q) ≡ true) × (is_direction t.direction e ≡ true)
  is_pending_for_facts q e now t h = (ground arith, ground arith)

  kept_of :
      (peer q : NodeId) (d e : Direction) (t : PendingPairing F)
      → (peer == q && is_direction e d) ≡ false
      → (t.peer_id == q) ≡ true
      → is_direction t.direction e ≡ true
      → not (t.peer_id == peer && is_direction t.direction d) ≡ true
  kept_of peer q d e t h a b = elim (Bool-cases (peer == q)) [
    | inl same ↦ ground (arith, one_direction t.direction d e)
    | inr other ↦ ground (arith, eq_iff t.peer_id q, eq_iff t.peer_id peer, eq_iff peer q)
  ]

  dropped_of :
      (peer q : NodeId) (d e : Direction) (t : PendingPairing F)
      → (peer == q && is_direction e d) ≡ true
      → (t.peer_id == q) ≡ true
      → is_direction t.direction e ≡ true
      → not (t.peer_id == peer && is_direction t.direction d) ≡ false
  dropped_of peer q d e t h a b = ground (
    arith,
    same_direction t.direction d e,
    eq_iff t.peer_id q,
    eq_iff t.peer_id peer,
    eq_iff peer q,
  )

  -- The transactions found for a peer `q` in the direction `e`, once those of `peer` in the direction
  -- `d` are dropped.
  pending_without_found :
      (peer q : NodeId) (d e : Direction) (now : F) (l : Dict String (PendingPairing F))
      → find? (is_pending_for q (some e) now) (map (λ p. p.1) (pending_without peer d l)) ≡ (
          if peer == q && is_direction e d
          then none
          else find? (is_pending_for q (some e) now) (map (λ p. p.1) l))
  pending_without_found peer q d e now l = elim (Bool-cases (peer == q && is_direction e d)) [
    | inl same ↦
        find?-dropped (is_pending_for q (some e) now)
          (λ t. not (t.peer_id == peer && is_direction t.direction d)) l
          (λ t h. let k = is_pending_for_facts q e now t h in dropped_of peer q d e t same k.0 k.1)
        ∙ ap (λ b. if b then none else find? (is_pending_for q (some e) now) (map (λ p. p.1) l))
            (sym same)
    | inr other ↦
        find?-kept (is_pending_for q (some e) now)
          (λ t. not (t.peer_id == peer && is_direction t.direction d)) l
          (λ t h. let k = is_pending_for_facts q e now t h in kept_of peer q d e t other k.0 k.1)
        ∙ ap (λ b. if b then none else find? (is_pending_for q (some e) now) (map (λ p. p.1) l))
            (sym other)
  ]

  -- Revoking the trust of a peer takes the trust of that peer and the active outgoing transactions
  -- found for it, and revoking its grant takes its grant and its active incoming transactions; for
  -- every other peer, and in the other direction, the trust, the grant and the active transaction
  -- that is found for a peer and a direction are as before.
  pub revocations_are_directed :
      (m : PairingManager F) (peer q : NodeId) (e : Direction) (now : F)
      → ((get_trusted (revoke_trusted m peer) q ≡ (if peer == q then none else get_trusted m q))
          × (get_grant (revoke_trusted m peer) q ≡ get_grant m q)
          × (find_pending_for (revoke_trusted m peer) q (some e) now ≡ (
              if peer == q && is_direction e outbound
              then none
              else find_pending_for m q (some e) now)))
        × ((get_grant (revoke_grant m peer) q ≡ (if peer == q then none else get_grant m q))
            × (get_trusted (revoke_grant m peer) q ≡ get_trusted m q)
            × (find_pending_for (revoke_grant m peer) q (some e) now ≡ (
                if peer == q && is_direction e inbound
                then none
                else find_pending_for m q (some e) now)))
  unfolding get_trusted get_grant find_pending_for revoke_trusted revoke_grant
  revocations_are_directed m peer q e now = (
    (lookup-erase peer q m.trusted, refl, pending_without_found peer q outbound e now m.pending),
    (lookup-erase peer q m.grants, refl, pending_without_found peer q inbound e now m.pending),
  )
