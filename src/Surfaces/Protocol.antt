-- ===== src/Surfaces/Protocol.antt =====
-- `validate_surface_operation_params` of src/expra_connect/surfaces/protocol.py. `error_type` is the
-- exception to raise, and `dumps` says whether json.dumps succeeds.
pub mod WellFormed
pub mod Accepted
use Prim.Native.String.count
use Prim.Native.String as Str
use expra_connect.Prelude.{
  ℕ, String, string_eq, option_eq, ◌==◌, Bool, true, false, not, ◌&&◌, ◌||◌, Option, none, some,
  Result, ok, err, Error, raise_if, ◌>>◌, ◌>>=◌, ltb, if◌then◌else◌, Floats,
}
use expra_connect.Sharing.{is_blank}
use expra_connect.Surfaces.JsonSafe.{
  Param, Entries, null, bool, int, float, text, list, dict, other, no_entry, entry, json_safe,
}

abbrev pub is_surface_operation : String → Bool
is_surface_operation op = op == "surface_read" || op == "surface_review" || op == "surface_action"

-- the keys that an operation requires, and the ones that it allows
abbrev pub is_required : String → String → Bool
is_required op key = key == "surface_id" || (op == "surface_action" && key == "action")

abbrev pub is_allowed_key : String → Option String → Bool
is_allowed_key op none = false
is_allowed_key op (some key) = is_required op key || key == "params"

module _ {F : Type 0} where
  unfoldable pub get_param : String → Entries F → Option (Param F)
  get_param key no_entry = none
  get_param key (entry k v l) = let rest = get_param key l in if k == some key then some v else rest

  abbrev pub has_key : String → Entries F → Bool
  has_key key d = elim (get_param key d) [ none ↦ false | some v ↦ true ]

  unfoldable pub are_allowed_keys : String → Entries F → Bool
  are_allowed_keys op no_entry = true
  are_allowed_keys op (entry k v l) = is_allowed_key op k && are_allowed_keys op l

  -- a field that is missing, or a text that is not blank nor longer than 128
  abbrev pub is_id : Option (Param F) → Bool
  is_id none = true
  is_id (some (text s)) = not (is_blank s) && not (ltb 128 (Str.count s))
  is_id (some v) = false

module _ {F : Type 0} ⦃fl : Floats F⦄ where
  abbrev pub is_json_safe : Param F → Bool
  is_json_safe v = elim (json_safe v) [ none ↦ false | some b ↦ b ]

  abbrev pub check_section :
      (String → Error) → (Param F → Bool) → Option (Param F) → Result (Unit {0})
  check_section error_type dumps none = ok tt
  check_section error_type dumps (some (dict i l)) =
      raise_if (not (is_json_safe (dict i l)) || not (dumps (dict i l)))
        (error_type "params must be JSON-safe")
  check_section error_type dumps (some v) = err (error_type "params must be JSON-safe")

  unfoldable pub validate_surface_operation_params :
      (String → Error) → (Param F → Bool) → String → Param F → Result (Unit {0})
  validate_surface_operation_params error_type dumps op (dict i d) = do
    raise_if (not (is_surface_operation op)) (error_type "unknown surface operation")
    raise_if
        (not (are_allowed_keys op d)
          || not (has_key "surface_id" d)
          || (op == "surface_action" && not (has_key "action" d)))
        (error_type "unexpected or missing parameters")
    raise_if (not (is_id (get_param "surface_id" d))) (error_type "surface_id is invalid")
    raise_if (not (is_id (get_param "action" d))) (error_type "action is invalid")
    check_section error_type dumps (get_param "params" d)
  validate_surface_operation_params error_type dumps op v = do
    raise_if (not (is_surface_operation op)) (error_type "unknown surface operation")
    err (error_type "surface operation parameters must be an object")
