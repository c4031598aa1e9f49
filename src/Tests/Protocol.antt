-- ===== src/Tests/Protocol.antt =====
-- The checks of a surface operation, at one request.
use expra_connect.Prelude.{
  ℕ, ◌≡◌, ◌↔◌, refl, string_eq, option_eq, ℕ_eq, true, some, ok, value_error, [],
}
use expra_connect.Sharing.{is_blank, is_space}
use expra_connect.Surfaces.JsonSafe.{
  Param, Entries, int, float, text, list, dict, no_item, item, no_entry, entry, json_safe, run,
  round, visit, push_items, push_entries, without, rounds,
}
use expra_connect.Surfaces.JsonSafe.Rounds.{is_allowed}
use expra_connect.Surfaces.JsonSafe.Reference.{json_safe_lem}
use expra_connect.Surfaces.Protocol.{get_param, are_allowed_keys, validate_surface_operation_params}
use expra_connect.Surfaces.Protocol.Accepted.{IsAccepted, validate_iff}
use expra_connect.Tests.Clock.{seconds}

-- {"range": [1, 2.0]}
abbrev section_params : Param ℕ
section_params = dict 2 (entry (some "range") (list 3 (item int (item (float 2) no_item))) no_entry)

abbrev request : Entries ℕ
request = entry (some "surface_id") (text "graph") (entry (some "params") section_params no_entry)

-- a list that contains itself
abbrev cyclic : Param ℕ
cyclic = list 1 (item int (item (list 1 no_item) no_item))

accepts_request :
    validate_surface_operation_params value_error (λ v. true) "surface_read" (dict 1 request)
    ≡ ok tt
unfolding validate_surface_operation_params get_param are_allowed_keys is_blank is_space json_safe
    run round visit push_items push_entries without rounds
accepts_request = refl

validate_iff_example :
    (validate_surface_operation_params value_error (λ v. true) "surface_read" (dict 1 request)
      ≡ ok tt)
    ↔ IsAccepted (λ v. true) "surface_read" (dict 1 request)
validate_iff_example = validate_iff value_error (λ v. true) "surface_read" (dict 1 request)

json_safe_lem_example : json_safe cyclic ≡ some (is_allowed 0 [] cyclic)
json_safe_lem_example = json_safe_lem cyclic
