-- ===== src/Surfaces/Protocol/Accepted.antt =====
-- The surface operations that src/expra_connect/surfaces/protocol.py accepts.
use expra_connect.Prelude.{
  ℕ, ◌≡◌, ◌↔◌, inl, inr, refl, sym, ap, ◌∙◌, String, string_eq, ◌==◌, Bool, true, false, not, ◌&&◌,
  ◌||◌, Option, none, some, Result, ok, err, Error, raise_if, ◌>>◌, [], Floats, arith, Option-cases,
}
use package.text.Mathlib.TextEquality.{eq_iff}
use expra_connect.Surfaces.JsonSafe.{
  Param, Entries, null, bool, int, float, text, list, dict, other,
}
use expra_connect.Surfaces.JsonSafe.Rounds.{is_allowed}
use expra_connect.Surfaces.JsonSafe.Reference.{json_safe_lem}
use expra_connect.Surfaces.Protocol.{
  is_surface_operation, get_param, has_key, are_allowed_keys, is_id, is_json_safe, check_section,
  validate_surface_operation_params,
}
use expra_connect.Surfaces.Protocol.WellFormed.{
  IsId, IsSection, IsWellFormed, is_surface_operation_iff, keys_to, keys_from, found-HasKey,
  is_id-IsId, IsId-is_id, surface_id, params, action,
}

passed :
    (b : Bool) (e : Error) (m : Result (Unit {0}))
    → (raise_if b e >> m) ≡ ok tt
    → (b ≡ false) × (m ≡ ok tt)
passed true e m h = absurd (ground arith)
passed false e m h = (refl, h)

passes :
    (b : Bool) (e : Error) (m : Result (Unit {0}))
    → b ≡ false
    → m ≡ ok tt
    → (raise_if b e >> m) ≡ ok tt
passes true e m h k = absurd (ground arith)
passes false e m h k = k

holds : (b : Bool) → not b ≡ false → b ≡ true
holds true h = refl
holds false h = absurd (ground arith)

all_hold : (a b c : Bool) → (not a || not b || c) ≡ false → (a ≡ true) × ((b ≡ true) × (c ≡ false))
all_hold true true c h = (refl, (refl, h))
all_hold true false c h = absurd (ground arith)
all_hold false b c h = absurd (ground arith)

some_injective : {A : Type 0} {a b : A} → some a ≡ some b → a ≡ b
some_injective e = ground arith

named :
    (op : String) (b : Bool)
    → op ≡ "surface_action"
    → (op == "surface_action" && not b) ≡ false
    → b ≡ true
named op true e h = refl
named op false e h = absurd (ground (arith, eq_iff op "surface_action"))

unnamed :
    (op : String) (b : Bool)
    → (op ≡ "surface_action" → b ≡ true)
    → (op == "surface_action" && not b) ≡ false
unnamed op true h = ground arith
unnamed op false h = ground (arith, eq_iff op "surface_action", h)

all_held : (a b c : Bool) → a ≡ true → b ≡ true → c ≡ false → (not a || not b || c) ≡ false
all_held a b c h k l = rw h (rw k l)

both : (a b : Bool) (e : Error) → raise_if (not a || not b) e ≡ ok tt → (a ≡ true) × (b ≡ true)
both true true e h = (refl, refl)
both true false e h = absurd (ground arith)
both false b e h = absurd (ground arith)

no_dict : {A : Type 0} (b : Bool) (e f : Error) → (raise_if b e >> err f) ≡ ok (tt {0}) → A
no_dict true e f h = absurd (ground arith)
no_dict false e f h = absurd (ground arith)

module _ {F : Type 0} ⦃fl : Floats F⦄ where
  safe : (v : Param F) → is_json_safe v ≡ is_allowed 0 [] v
  safe v = ap (λ o. elim o [ none ↦ false | some b ↦ b ]) (json_safe_lem v)

  check_section-IsSection :
      (error_type : String → Error) (dumps : Param F → Bool) (v : Param F)
      → check_section error_type dumps (some v) ≡ ok tt
      → IsSection dumps v
  check_section-IsSection error_type dumps (dict i l) h =
      let k =
        both (is_json_safe (dict i l)) (dumps (dict i l)) (error_type "params must be JSON-safe")
          h in
      record {
        number = i;
        content = l;
        is_dict = refl;
        safe = sym (safe (dict i l)) ∙ k.0;
        dumped = k.1;
      }
  check_section-IsSection error_type dumps null h = absurd (ground arith)
  check_section-IsSection error_type dumps (bool b) h = absurd (ground arith)
  check_section-IsSection error_type dumps int h = absurd (ground arith)
  check_section-IsSection error_type dumps (float t) h = absurd (ground arith)
  check_section-IsSection error_type dumps (text s) h = absurd (ground arith)
  check_section-IsSection error_type dumps (list i l) h = absurd (ground arith)
  check_section-IsSection error_type dumps other h = absurd (ground arith)

  IsSection-check_section :
      (error_type : String → Error) (dumps : Param F → Bool) (o : Option (Param F))
      → ((v : Param F) → o ≡ some v → IsSection dumps v)
      → check_section error_type dumps o ≡ ok tt
  IsSection-check_section error_type dumps none h = refl
  IsSection-check_section error_type dumps (some v) h =
      let k = h v refl in
      let a : is_json_safe (dict k.number k.content) ≡ true =
        safe (dict k.number k.content) ∙ (ap (is_allowed 0 []) (sym k.is_dict) ∙ k.safe) in
      let b : dumps (dict k.number k.content) ≡ true = ap dumps (sym k.is_dict) ∙ k.dumped in
      rw k.is_dict (rw a (rw b refl))

  -- a field that is there is an id
  field_to :
      (key : String) (d : Entries F)
      → has_key key d ≡ true
      → is_id (get_param key d) ≡ true
      → (v : Param F) × (get_param key d ≡ some v) × IsId v
  field_to key d h k = elim (Option-cases (get_param key d)) [
    | inl e ↦ absurd (ground (arith, h, e))
    | inr (v, e) ↦ (v, e, is_id-IsId v (ap is_id (sym e) ∙ k))
  ]

  field_from :
      (key : String) (d : Entries F)
      → (v : Param F) × (get_param key d ≡ some v) × IsId v
      → (has_key key d ≡ true) × (is_id (get_param key d) ≡ true)
  field_from key d (v, e, k) = (rw (e, has_key) refl, ap is_id e ∙ IsId-is_id v k)

  -- an action is an id, or there is none
  action_from :
      (dumps : Param F → Bool) (op : String) (d : Entries F)
      → IsWellFormed dumps op d
      → is_id (get_param "action" d) ≡ true
  action_from dumps op d k = elim (Option-cases (get_param "action" d)) [
    | inl e ↦ ap is_id e
    | inr (v, e) ↦ elim (k.keys (some "action") (found-HasKey "action" d v e)) [
      | surface_id f ↦ absurd (ground (arith, (eq_iff "action" "surface_id").1 (some_injective f)))
      | params f ↦ absurd (ground (arith, (eq_iff "action" "params").1 (some_injective f)))
      | action o f ↦ (field_from "action" d (k.names_action o)).1
    ]
  ]

  validated-IsWellFormed :
      (error_type : String → Error) (dumps : Param F → Bool) (op : String) (i : ℕ) (d : Entries F)
      → validate_surface_operation_params error_type dumps op (dict i d) ≡ ok tt
      → IsWellFormed dumps op d
  unfolding validate_surface_operation_params
  validated-IsWellFormed error_type dumps op i d h =
      let (known, h1) = passed (not (is_surface_operation op)) _ _ h in
      let (fields, h2) =
        passed
          (not (are_allowed_keys op d)
            || not (has_key "surface_id" d)
            || (op == "surface_action" && not (has_key "action" d)))
          _ _ h1 in
      let (surface, h3) = passed (not (is_id (get_param "surface_id" d))) _ _ h2 in
      let (act, h4) = passed (not (is_id (get_param "action" d))) _ _ h3 in
      let (only, (first, second)) =
        all_hold (are_allowed_keys op d) (has_key "surface_id" d) _ fields in
      record {
        operation = (is_surface_operation_iff op).0 (holds (is_surface_operation op) known);
        keys = keys_to op d only;
        surface = field_to "surface_id" d first (holds (is_id (get_param "surface_id" d)) surface);
        names_action = λ e.
            field_to "action" d (named op (has_key "action" d) e second)
              (holds (is_id (get_param "action" d)) act);
        section = λ v e.
            check_section-IsSection error_type dumps v
              (ap (check_section error_type dumps) (sym e) ∙ h4);
      }

  IsWellFormed-validated :
      (error_type : String → Error) (dumps : Param F → Bool) (op : String) (i : ℕ) (d : Entries F)
      → IsWellFormed dumps op d
      → validate_surface_operation_params error_type dumps op (dict i d) ≡ ok tt
  unfolding validate_surface_operation_params
  IsWellFormed-validated error_type dumps op i d k =
      let named_field = field_from "surface_id" d k.surface in
      passes _ _ _ (ap not ((is_surface_operation_iff op).1 k.operation)) (
        passes _ _ _
          (all_held (are_allowed_keys op d) (has_key "surface_id" d) _ (keys_from op d k.keys)
            named_field.0
            (unnamed op (has_key "action" d) (λ e. (field_from "action" d (k.names_action e)).0)))
          (passes _ _ _ (ap not named_field.1) (
            passes _ _ _ (ap not (action_from dumps op d k))
              (IsSection-check_section error_type dumps (get_param "params" d) k.section))))

  -- Parameters of an operation that are a dict and well formed.
  pub record IsAccepted (dumps : Param F → Bool) (op : String) (p : Param F) : Type 0 where
    pub number : ℕ
    pub content : Entries F
    pub is_dict : p ≡ dict number content
    pub well_formed : IsWellFormed dumps op content

  validated-IsAccepted :
      (error_type : String → Error) (dumps : Param F → Bool) (op : String) (p : Param F)
      → validate_surface_operation_params error_type dumps op p ≡ ok tt
      → IsAccepted dumps op p
  unfolding validate_surface_operation_params
  validated-IsAccepted error_type dumps op (dict i d) h = record {
    number = i;
    content = d;
    is_dict = refl;
    well_formed = validated-IsWellFormed error_type dumps op i d h;
  }
  validated-IsAccepted error_type dumps op null h = no_dict _ _ _ h
  validated-IsAccepted error_type dumps op (bool b) h = no_dict _ _ _ h
  validated-IsAccepted error_type dumps op int h = no_dict _ _ _ h
  validated-IsAccepted error_type dumps op (float t) h = no_dict _ _ _ h
  validated-IsAccepted error_type dumps op (text s) h = no_dict _ _ _ h
  validated-IsAccepted error_type dumps op (list i l) h = no_dict _ _ _ h
  validated-IsAccepted error_type dumps op other h = no_dict _ _ _ h

  -- `validate_surface_operation_params` accepts parameters exactly when they are a dict for one of
  -- the three operations, whose keys are the surface id, the section's parameters and, for an
  -- action, the action, where the ids that are required are texts that are not blank, of at most
  -- 128 characters, and the section's parameters, if there are any, are a dict that the recursion
  -- on JSON values allows and json.dumps takes.
  pub validate_iff :
      (error_type : String → Error) (dumps : Param F → Bool) (op : String) (p : Param F)
      → (validate_surface_operation_params error_type dumps op p ≡ ok tt) ↔ IsAccepted dumps op p
  validate_iff error_type dumps op p = (
    validated-IsAccepted error_type dumps op p,
    λ k.
        ap (validate_surface_operation_params error_type dumps op) k.is_dict
        ∙ IsWellFormed-validated error_type dumps op k.number k.content k.well_formed,
  )
