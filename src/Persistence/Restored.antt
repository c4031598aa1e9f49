-- ===== src/Persistence/Restored.antt =====
-- What src/expra_connect/runtime/persistence.py lets through when it restores a grant.
use Prim.Native.String.{count}
use expra_connect.Prelude.{
  ◌≡◌, subst, ◌∙◌, String, string_eq, ◌==◌, true, Option, none, some, Result, ok, List, Floats, ℤ,
  pos, ltb_int, arith, Bool-cases, Result-split, inl, inr, ltb, ◌||◌,
}
use expra_connect.Identity.{NodeId, init_node_id}
use expra_connect.Pairing.{Material, PeerGrant}
use expra_connect.Persistence.{
  Value, Fields, null, int, text, items, is_secret, are_known, get, required, optional_generation,
  known_texts, texts, permissions_from_json, validate_secret, material_from, credential_from,
  object_of, str, peer_grant_from_json,
}
use expra_connect.Persistence.RoundTrip.{HasGeneration, no_generation, from_one, IsStorable}

module _ {F : Type 0} ⦃fl : Floats F⦄ (show : Value F → String) (float_of : ℤ → Result F) where
  generation_valid :
      (v : Option (Value F)) (g : Option ℤ) (m : Material)
      → optional_generation v ≡ ok g
      → m.transport_generation ≡ g
      → HasGeneration m
  unfolding optional_generation
  generation_valid none g m h e = no_generation (e ∙ ground (arith, h))
  generation_valid (some null) g m h e = no_generation (e ∙ ground (arith, h))
  generation_valid (some (int n)) g m h e = elim (Bool-cases (ltb_int n (pos 1))) [
    | inl low ↦ absurd (ground arith)
    | inr fine ↦ from_one n (e ∙ ground (arith, h, fine)) fine
  ]
  generation_valid (some v) g m h e = absurd (ground arith)

  material_valid :
      (d : Fields F) (m : Material) → material_from show float_of d ≡ ok m → HasGeneration m
  material_valid d m h = elim (Result-split (optional_generation (get "transport_generation" d))) [
    | inl (e, q) ↦ absurd (ground arith)
    | inr (g, q) ↦ generation_valid (get "transport_generation" d) g m q (ground (arith, h, q))
  ]

  known_valid :
      (o : Option (List String)) (l : List String) → known_texts o ≡ ok l → are_known l ≡ true
  known_valid none l h = absurd (ground arith)
  known_valid (some k) l h = elim (Bool-cases (are_known k)) [
    | inl fine ↦ ground (arith, h, fine)
    | inr bad ↦ absurd (ground (arith, bad))
  ]

  permissions_valid :
      (v : Option (Value F)) (l : List String) → permissions_from_json v ≡ ok l → are_known l ≡ true
  unfolding permissions_from_json
  permissions_valid none l h = absurd (ground arith)
  permissions_valid (some (items x)) l h = known_valid (texts x) l h
  permissions_valid (some v) l h = absurd (ground arith)

  secret_valid :
      (v : Option (Value F)) (w : Value F) (u : Unit {0})
      → validate_secret v ≡ ok u
      → v ≡ some w
      → is_secret (str show float_of w) ≡ true
  unfolding validate_secret
  secret_valid none w u h e = absurd (ground arith)
  secret_valid (some (text s)) w u h e = elim (Bool-cases (is_secret s)) [
    | inl fine ↦
        let same : text s ≡ w = ground (arith, e) in
        subst (λ x. is_secret (str show float_of x) ≡ true) same fine
    | inr bad ↦ absurd (ground (arith, bad))
  ]
  secret_valid (some v) w u h e = absurd (ground arith)

  required_some :
      (d : Fields F) (s : Value F) → required "secret" d ≡ ok s → get "secret" d ≡ some s
  unfolding required
  required_some d s h = ground arith

  same_id : (x y : String) → init_node_id x ≡ ok y → init_node_id y ≡ ok y
  unfolding init_node_id
  same_id x y h = elim (Bool-cases (x == "" || x == "local" || ltb 128 (count x))) [
    | inl bad ↦ absurd (ground arith)
    | inr fine ↦
        let same : x ≡ y = ground (arith, h, fine) in subst (λ z. init_node_id z ≡ ok y) same h
  ]

  credential_valid :
      (key : String) (d : Fields F) (u : Unit {0}) (c : NodeId × (String × Material))
      → validate_secret (get "secret" d) ≡ ok u
      → credential_from show float_of key d ≡ ok c
      → (init_node_id c.0 ≡ ok c.0) × (is_secret c.1.0 ≡ true) × HasGeneration c.1.1
  credential_valid key d u c v h = elim (Result-split (required key d)) [
    | inl (e, q) ↦ absurd (ground arith)
    | inr (raw, q) ↦ elim (Result-split (init_node_id (str show float_of raw))) [
      | inl (e, w) ↦ absurd (ground arith)
      | inr (i, w) ↦ elim (Result-split (required "secret" d)) [
        | inl (e, x) ↦ absurd (ground arith)
        | inr (s, x) ↦ elim (Result-split (material_from show float_of d)) [
          | inl (e, y) ↦ absurd (ground arith)
          | inr (m, y) ↦
              let it : c ≡ (i, (str show float_of s, m)) = ground (arith, h, q, w, x, y) in
              rw it (
                same_id (str show float_of raw) i w,
                secret_valid (get "secret" d) s u v (required_some d s x),
                material_valid d m y,
              )
        ]
      ]
    ]
  ]

  -- A grant that is restored from any stored value has a valid id, a valid secret, known
  -- permissions and no generation or one from 1.
  pub restored-IsStorable :
      (v : Value F) (g : PeerGrant)
      → peer_grant_from_json show float_of v ≡ ok g
      → IsStorable g.caller_id g.secret g.permissions g.material
  unfolding peer_grant_from_json
  restored-IsStorable v g h =
      elim (Result-split (object_of "persisted grant must be an object" v)) [
        | inl (e, q) ↦ absurd (ground arith)
        | inr (d, q) ↦ elim (Result-split (permissions_from_json (get "permissions" d))) [
          | inl (e, w) ↦ absurd (ground arith)
          | inr (l, w) ↦ elim (Result-split (validate_secret (get "secret" d))) [
            | inl (e, x) ↦ absurd (ground arith)
            | inr (u, x) ↦ elim (Result-split (credential_from show float_of "caller_id" d)) [
              | inl (e, y) ↦ absurd (ground arith)
              | inr (c, y) ↦
                  let k = credential_valid "caller_id" d u c x y in
                  let it : g ≡ record {
                    caller_id = c.0;
                    secret = c.1.0;
                    permissions = l;
                    material = c.1.1;
                  } =
                    ground (arith, h, q, w, x, y) in
                  rw it (record {
                    valid_id = k.0;
                    valid_secret = k.1;
                    known = permissions_valid (get "permissions" d) l w;
                    generation = k.2;
                  })
            ]
          ]
        ]
      ]
