-- ===== src/Pairing/Wire.antt =====
-- The wire form of the grants in src/expra_connect/runtime/core.py.
use expra_connect.Prelude.{
  ◌≡◌, refl, String, string_eq, ◌==◌, Bool, false, not, ◌||◌, Option, none, some, ok, List, [], ◌∷◌,
  Dict, put, any, arith, Bool-cases, inl, inr, Result-split,
}
use expra_connect.Identity.{NodeId}
use expra_connect.Pairing.{PeerGrant, PairingManager}
use expra_connect.Pairing.Target.{
  WirePeerGrant, is_node_permission, has_other_permission, wire_grants, refreshed,
}

pub read_state-has_other_permission :
    (g : PeerGrant)
    → any (λ p. not (p == "read_state")) g.permissions ≡ false
    → has_other_permission g ≡ false
unfolding has_other_permission
read_state-has_other_permission g h = of_texts g.permissions h
  where
    of_texts :
        (l : List String)
        → any (λ p. not (p == "read_state")) l ≡ false
        → any (λ x. not (is_node_permission x)) l ≡ false
    of_texts [] h = refl
    of_texts (p ∷ l) h = ground (arith, of_texts l)

-- a grant of the dict has a permission that is no `NodePermission`
unfoldable has_other : Dict NodeId PeerGrant → Bool
has_other [] = false
has_other ((k, g) ∷ d) = has_other_permission g || has_other d

has_other-put :
    (k : NodeId) (g : PeerGrant) (d : Dict NodeId PeerGrant)
    → has_other_permission g ≡ false
    → has_other d ≡ false
    → has_other (put k g d) ≡ false
unfolding has_other put
has_other-put k g [] h e = ground (arith, h)
has_other-put k g ((j, x) ∷ d) h e = elim (Bool-cases (j == k)) [
  | inl b ↦ ground (arith, h, e, b)
  | inr b ↦ ground (arith, has_other-put k g d h, e, b)
]

wire_grants-ok :
    (d : Dict NodeId PeerGrant)
    → has_other d ≡ false
    → (w : Dict NodeId WirePeerGrant) × (wire_grants d ≡ ok w)
unfolding has_other wire_grants
wire_grants-ok [] h = ([], refl)
wire_grants-ok ((k, g) ∷ d) h = elim (Bool-cases (has_other_permission g)) [
  | inl b ↦ absurd (ground (arith, h, b))
  | inr b ↦
      let rest = wire_grants-ok d (ground (arith, h, b)) in
      (
        (k, record { caller_node_id = g.caller_id; secret = g.secret; permissions = g.permissions })
            ∷ rest.0,
        rw b (rw rest.1 refl),
      )
]

wire_grants_known :
    (d : Dict NodeId PeerGrant) (w : Dict NodeId WirePeerGrant)
    → wire_grants d ≡ ok w
    → has_other d ≡ false
unfolding has_other wire_grants
wire_grants_known [] w h = refl
wire_grants_known ((k, g) ∷ d) w h = elim (Bool-cases (has_other_permission g)) [
  | inl b ↦ absurd (ground (arith, h, b))
  | inr b ↦ elim (Result-split (wire_grants d)) [
    | inl (e, q) ↦ absurd (ground (arith, h, b, q))
    | inr (v, q) ↦ ground (arith, b, wire_grants_known d v q)
  ]
]

-- What `wire_grants` takes, it takes with one grant more that reads only.
pub wire_grants-put :
    (k : NodeId) (g : PeerGrant) (d : Dict NodeId PeerGrant) (w : Dict NodeId WirePeerGrant)
    → any (λ p. not (p == "read_state")) g.permissions ≡ false
    → wire_grants d ≡ ok w
    → (v : Dict NodeId WirePeerGrant) × (wire_grants (put k g d) ≡ ok v)
wire_grants-put k g d w h e =
    wire_grants-ok (put k g d)
      (has_other-put k g d (read_state-has_other_permission g h) (wire_grants_known d w e))

pub refreshed-ok :
    {F : Type 0} (m : PairingManager F) (o : Option (Dict NodeId WirePeerGrant))
    (w : Dict NodeId WirePeerGrant)
    → wire_grants m.grants ≡ ok w
    → (v : Option (Dict NodeId WirePeerGrant)) × (refreshed m o ≡ ok v)
refreshed-ok m none w e = (none, refl)
refreshed-ok m (some live) w e = (some w, rw e refl)
