-- ===== src/Surfaces/JsonSafe.antt =====
-- `_json_safe` of src/expra_connect/surfaces/protocol.py: the loop over an explicit stack. A container
-- carries its `id`, a number; a container that contains itself is one with the same number inside it.
-- The loop runs on fuel, and `rounds` is the number of rounds that it makes on a value.
pub mod Rounds
pub mod Reference
use expra_connect.Prelude.{
  ℕ, zero, suc, ℕ_eq, String, ◌==◌, Bool, true, false, not, ◌&&◌, ◌||◌, Option, none, some, List,
  [], ◌∷◌, contains, if◌then◌else◌, Floats, ltb,
}

mutual
  pub data Param (F : Type 0) : Type 0 where
    null : Param F
    bool : Bool → Param F
    int : Param F
    float : F → Param F
    text : String → Param F
    list : ℕ → Params F → Param F
    dict : ℕ → Entries F → Param F
    other : Param F

  pub data Params (F : Type 0) : Type 0 where
    no_item : Params F
    item : Param F → Params F → Params F

  -- a key that is not a text is `none`
  pub data Entries (F : Type 0) : Type 0 where
    no_entry : Entries F
    entry : Option String → Param F → Entries F → Entries F

-- what the stack holds: a value at its depth, or the end of a container
pub data Frame (F : Type 0) : Type 0 where
  enter : Param F → ℕ → Frame F
  leave : ℕ → Frame F

-- active_containers.remove
unfoldable pub without : ℕ → List ℕ → List ℕ
without i [] = []
without i (j ∷ l) = let rest = without i l in if i == j then l else j ∷ rest

module _ {F : Type 0} where
  -- the items, the first of them on top
  unfoldable pub push_items : Params F → ℕ → List (Frame F) → List (Frame F)
  push_items no_item depth stack = stack
  push_items (item v l) depth stack = enter v depth ∷ push_items l depth stack

  -- the values of a dict, if all of its keys are texts
  unfoldable pub push_entries : Entries F → ℕ → List (Frame F) → Option (List (Frame F))
  push_entries no_entry depth stack = some stack
  push_entries (entry key v l) depth stack = elim (push_entries l depth stack) [
    | none ↦ none
    | some rest ↦ elim key [ none ↦ none | some k ↦ some (enter v depth ∷ rest) ]
  ]

  -- the rounds for a value, and `n` more
  unfoldable mutual
    pub rounds : Param F → ℕ → ℕ
    rounds (list i l) n = suc (rounds_items l (suc n))
    rounds (dict i l) n = suc (rounds_entries l (suc n))
    rounds v n = suc n

    pub rounds_items : Params F → ℕ → ℕ
    rounds_items no_item n = n
    rounds_items (item v l) n = rounds v (rounds_items l n)

    pub rounds_entries : Entries F → ℕ → ℕ
    rounds_entries no_entry n = n
    rounds_entries (entry key v l) n = rounds v (rounds_entries l n)

module _ {F : Type 0} ⦃fl : Floats F⦄ where
  -- one round on a value at a depth that is allowed; `none` is False
  unfoldable pub visit : Param F → ℕ → List (Frame F) → List ℕ → Option (List (Frame F) × List ℕ)
  visit null depth stack active = some (stack, active)
  visit (bool b) depth stack active = some (stack, active)
  visit int depth stack active = some (stack, active)
  visit (text s) depth stack active = some (stack, active)
  visit (float t) depth stack active = if fl.is_finite t then some (stack, active) else none
  visit other depth stack active = none
  visit (list i l) depth stack active =
      if contains i active
      then none
      else some (push_items l (suc depth) (leave i ∷ stack), i ∷ active)
  visit (dict i l) depth stack active =
      if contains i active then none else elim (push_entries l (suc depth) (leave i ∷ stack)) [
        | none ↦ none
        | some rest ↦ some (rest, i ∷ active)
      ]

  -- one round of the loop
  unfoldable pub round : Frame F → List (Frame F) → List ℕ → Option (List (Frame F) × List ℕ)
  round (leave i) stack active = some (stack, without i active)
  round (enter v depth) stack active = if ltb 32 depth then none else visit v depth stack active

  -- the loop; `none` is out of fuel
  unfoldable pub run : ℕ → List (Frame F) → List ℕ → Option Bool
  run n [] active = some true
  run zero (f ∷ stack) active = none
  run (suc n) (f ∷ stack) active = elim (round f stack active) [
    | none ↦ some false
    | some next ↦ run n next.0 next.1
  ]

  unfoldable pub json_safe : Param F → Option Bool
  json_safe v = run (rounds v 0) (enter v 0 ∷ []) []
