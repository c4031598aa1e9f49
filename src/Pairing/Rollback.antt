-- ===== src/Pairing/Rollback.antt =====
-- Confirmations of src/expra_connect/runtime/core.py that do not succeed.
use expra_connect.Prelude.{◌≡◌, String, string_eq, option_eq, lookup, Floats}
use expra_connect.Pairing.Target.{Target}

module _ {F : Type 0} ⦃fl : Floats F⦄ where
  -- The pairing is as before, and so is what is kept for the transaction `i`.
  pub record IsRestored (s n : Target F) (i : String) : Type 0 where
    pub pairing : n.pairing ≡ s.pairing
    pub permissions : lookup i n.pending_permissions ≡ lookup i s.pending_permissions
