-- ===== src/Surfaces/Protocol/WellFormed.antt =====
-- What the parameters of a surface operation of src/expra_connect/surfaces/protocol.py must be, and
-- the tests of it.
use Prim.Native.String as Str
use expra_connect.Prelude.{
  ℕ, ◌≡◌, ◌≤◌, ◌↔◌, inl, inr, refl, ap, subst, String, string_eq, option_eq, equal, ◌==◌, Bool,
  true, false, Option, none, some, [], Floats, arith, Bool-cases,
}
use package.text.Mathlib.TextEquality.{eq_iff}
use expra_connect.Sharing.{is_blank}
use expra_connect.Surfaces.JsonSafe.{
  Param, Entries, null, bool, int, float, text, list, dict, other, no_entry, entry,
}
use expra_connect.Surfaces.JsonSafe.Rounds.{is_allowed}
use expra_connect.Surfaces.Protocol.{
  is_surface_operation, is_allowed_key, get_param, are_allowed_keys, is_id,
}

-- a key of a dict, a text or not
pub data HasKey {F : Type 0} (k : Option String) : Entries F → Type 0 where
  first : (j : Option String) (v : Param F) (d : Entries F) → j ≡ k → HasKey k (entry j v d)
  later : (j : Option String) (v : Param F) (d : Entries F) → HasKey k d → HasKey k (entry j v d)

-- the three operations
pub data IsOperation (op : String) : Type 0 where
  reads : op ≡ "surface_read" → IsOperation op
  reviews : op ≡ "surface_review" → IsOperation op
  acts : op ≡ "surface_action" → IsOperation op

-- the keys that an operation may have
pub data IsKey (op : String) (k : Option String) : Type 0 where
  surface_id : k ≡ some "surface_id" → IsKey op k
  params : k ≡ some "params" → IsKey op k
  action : op ≡ "surface_action" → k ≡ some "action" → IsKey op k

-- a text that is not blank, of at most 128 characters
pub record IsId {F : Type 0} (v : Param F) : Type 0 where
  pub content : String
  pub is_text : v ≡ text content
  pub not_blank : is_blank content ≡ false
  pub short : Str.count content ≤ 128

module _ {F : Type 0} ⦃fl : Floats F⦄ where
  -- a dict that the recursion on JSON values allows and that json.dumps takes
  pub record IsSection (dumps : Param F → Bool) (v : Param F) : Type 0 where
    pub number : ℕ
    pub content : Entries F
    pub is_dict : v ≡ dict number content
    pub safe : is_allowed 0 [] v ≡ true
    pub dumped : dumps v ≡ true

  -- what the parameters `d` of an operation must be
  pub record IsWellFormed (dumps : Param F → Bool) (op : String) (d : Entries F) : Type 0 where
    pub operation : IsOperation op
    pub keys : (k : Option String) → HasKey k d → IsKey op k
    pub surface : (v : Param F) × (get_param "surface_id" d ≡ some v) × IsId v
    pub names_action :
        op ≡ "surface_action" → (v : Param F) × (get_param "action" d ≡ some v) × IsId v
    pub section : (v : Param F) → get_param "params" d ≡ some v → IsSection dumps v

pub is_surface_operation_iff : (op : String) → (is_surface_operation op ≡ true) ↔ IsOperation op
is_surface_operation_iff op = (to, from)
  where
    to : is_surface_operation op ≡ true → IsOperation op
    to h = elim (Bool-cases (op == "surface_read")) [
      | inl a ↦ reads (ground (arith, a, eq_iff op "surface_read"))
      | inr a ↦ elim (Bool-cases (op == "surface_review")) [
        | inl b ↦ reviews (ground (arith, b, eq_iff op "surface_review"))
        | inr b ↦ acts (ground (arith, h, a, b, eq_iff op "surface_action"))
      ]
    ]

    from : IsOperation op → is_surface_operation op ≡ true
    from (reads e) = rw e refl
    from (reviews e) = rw e refl
    from (acts e) = rw e refl

is_allowed_key_iff : (op : String) (k : Option String) → (is_allowed_key op k ≡ true) ↔ IsKey op k
is_allowed_key_iff op k = (to k, from k)
  where
    to : (k : Option String) → is_allowed_key op k ≡ true → IsKey op k
    to none h = absurd (ground arith)
    to (some k) h = elim (Bool-cases (k == "surface_id")) [
      | inl a ↦ surface_id (ap some (ground (arith, a, eq_iff k "surface_id")))
      | inr a ↦ elim (Bool-cases (k == "params")) [
        | inl b ↦ params (ap some (ground (arith, b, eq_iff k "params")))
        | inr b ↦
            action (ground (arith, h, a, b, eq_iff op "surface_action"))
              (ap some (ground (arith, h, a, b, eq_iff k "action")))
      ]
    ]

    from : (k : Option String) → IsKey op k → is_allowed_key op k ≡ true
    from k (surface_id e) = rw e refl
    from k (params e) = rw e (ground arith)
    from k (action o e) = rw e (rw o refl)

module _ {F : Type 0} where
  pub keys_to :
      (op : String) (d : Entries F)
      → are_allowed_keys op d ≡ true
      → (k : Option String) → HasKey k d
      → IsKey op k
  unfolding are_allowed_keys
  keys_to op no_entry h k m = elim m [ ]
  keys_to op (entry j v d) h k (first _ _ _ e) =
      subst (IsKey op) e ((is_allowed_key_iff op j).0 (ground (arith, h)))
  keys_to op (entry j v d) h k (later _ _ _ m) = keys_to op d (ground (arith, h)) k m

  pub keys_from :
      (op : String) (d : Entries F)
      → ((k : Option String) → HasKey k d → IsKey op k)
      → are_allowed_keys op d ≡ true
  unfolding are_allowed_keys
  keys_from op no_entry h = refl
  keys_from op (entry j v d) h = ground (
    arith,
    (is_allowed_key_iff op j).1 (h j (first j v d refl)),
    keys_from op d (λ k m. h k (later j v d m)),
  )

  -- what is found is a key
  pub found-HasKey :
      (k : String) (d : Entries F) (v : Param F) → get_param k d ≡ some v → HasKey (some k) d
  unfolding get_param
  found-HasKey k no_entry v h = absurd (ground arith)
  found-HasKey k (entry j w d) v h = elim (Bool-cases (j == some k)) [
    | inl a ↦ first j w d (equal j (some k) a)
    | inr a ↦ later j w d (found-HasKey k d v (ground (arith, h, a)))
  ]

  pub is_id-IsId : (v : Param F) → is_id (some v) ≡ true → IsId v
  is_id-IsId (text s) h = record {
    content = s;
    is_text = refl;
    not_blank = ground arith;
    short = ground arith;
  }
  is_id-IsId null h = absurd (ground arith)
  is_id-IsId (bool b) h = absurd (ground arith)
  is_id-IsId int h = absurd (ground arith)
  is_id-IsId (float t) h = absurd (ground arith)
  is_id-IsId (list i l) h = absurd (ground arith)
  is_id-IsId (dict i l) h = absurd (ground arith)
  is_id-IsId other h = absurd (ground arith)

  pub IsId-is_id : (v : Param F) → IsId v → is_id (some v) ≡ true
  IsId-is_id v k = rw k.is_text (ground (arith, k.not_blank, k.short))
