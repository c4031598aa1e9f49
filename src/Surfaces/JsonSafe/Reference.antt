-- ===== src/Surfaces/JsonSafe/Reference.antt =====
-- The loop of `_json_safe` of src/expra_connect/surfaces/protocol.py against a recursion on the
-- value.
use expra_connect.Prelude.{
  ℕ, suc, ◌≡◌, refl, ap, ◌∙◌, ℕ_eq, true, false, not, ◌&&◌, none, some, List, [], ◌∷◌, contains,
  if◌then◌else◌, Floats, leb,
}
use expra_connect.Surfaces.JsonSafe.{
  Param, Params, Entries, Frame, null, bool, int, float, text, list, dict, other, no_item, item,
  no_entry, entry, enter, leave, push_items, push_entries, rounds, rounds_items, rounds_entries,
  visit, run, json_safe,
}
use expra_connect.Surfaces.JsonSafe.Rounds.{
  is_allowed, are_safe, are_safe_entries, onwards, onwards_twice, refused_first, resume, entered,
  left, guarded, pushed, resume-pushed,
}

module _ {F : Type 0} ⦃fl : Floats F⦄ where
  mutual
    unfolding visit rounds is_allowed push_items push_entries

    allowed :
        (v : Param F) (d n : ℕ) (stack : List (Frame F)) (active : List ℕ)
        → leb d 32 ≡ true
        → run (rounds v n) (enter v d ∷ stack) active
          ≡ onwards (is_allowed d active v) (run n stack active)
    allowed null d n stack active h = entered null d n stack active h
    allowed (bool b) d n stack active h = entered (bool b) d n stack active h
    allowed int d n stack active h = entered int d n stack active h
    allowed (text s) d n stack active h = entered (text s) d n stack active h
    allowed (float t) d n stack active h =
        entered (float t) d n stack active h
        ∙ elim (fl.is_finite t)
            as (λ b.
              resume {F = F} n (if b then some (stack, active) else none)
              ≡ onwards b (run n stack active)) [ true ↦ refl | false ↦ refl ]
    allowed other d n stack active h = entered other d n stack active h
    allowed (list i l) d n stack active h =
        entered (list i l) d (rounds_items l (suc n)) stack active h
        ∙ elim (contains i active)
            as (λ b.
              resume {F = F} (rounds_items l (suc n))
                (if b then none else some (push_items l (suc d) (leave i ∷ stack), i ∷ active))
              ≡ onwards (not b && are_safe (suc d) (i ∷ active) l) (run n stack active)) [
                | true ↦ refl
                | false ↦
                    all_items l (suc d) (suc n) (leave i ∷ stack) (i ∷ active)
                    ∙ ap (onwards (are_safe (suc d) (i ∷ active) l)) (left i n stack active)
              ]
    allowed (dict i l) d n stack active h =
        entered (dict i l) d (rounds_entries l (suc n)) stack active h
        ∙ elim (contains i active)
            as (λ b.
              resume {F = F} (rounds_entries l (suc n)) (
                if b then none else elim (push_entries l (suc d) (leave i ∷ stack)) [
                  | none ↦ none
                  | some rest ↦ some (rest, i ∷ active)
                ])
              ≡ onwards (not b && are_safe_entries (suc d) (i ∷ active) l) (run n stack active)) [
                | true ↦ refl
                | false ↦
                    resume-pushed {F = F} (rounds_entries l (suc n)) (i ∷ active)
                      (push_entries l (suc d) (leave i ∷ stack))
                    ∙ (all_entries l (suc d) (suc n) (leave i ∷ stack) (i ∷ active)
                        ∙ ap (onwards (are_safe_entries (suc d) (i ∷ active) l))
                            (left i n stack active))
              ]

    all_items :
        (l : Params F) (d n : ℕ) (stack : List (Frame F)) (active : List ℕ)
        → run (rounds_items l n) (push_items l d stack) active
          ≡ onwards (are_safe d active l) (run n stack active)
    all_items no_item d n stack active = refl
    all_items (item v l) d n stack active =
        guarded v d (rounds_items l n) (push_items l d stack) active
          (allowed v d (rounds_items l n) (push_items l d stack) active)
        ∙ (ap (onwards (leb d 32 && is_allowed d active v)) (all_items l d n stack active)
            ∙ onwards_twice (leb d 32 && is_allowed d active v) (are_safe d active l)
                (run n stack active))

    all_entries :
        (l : Entries F) (d n : ℕ) (stack : List (Frame F)) (active : List ℕ)
        → pushed {F = F} (rounds_entries l n) active (push_entries l d stack)
          ≡ onwards (are_safe_entries d active l) (run n stack active)
    all_entries no_entry d n stack active = refl
    all_entries (entry none v l) d n stack active =
        elim (push_entries l d stack)
          as (λ o.
            pushed {F = F} (rounds v (rounds_entries l n)) active
              (elim o [ none ↦ none | some rest ↦ none ])
            ≡ some false) [ none ↦ refl | some rest ↦ refl ]
    all_entries (entry (some k) v l) d n stack active =
        (elim (push_entries l d stack)
            as (λ o.
              pushed {F = F} (rounds_entries l n) active o
                ≡ onwards (are_safe_entries d active l) (run n stack active)
              → pushed {F = F} (rounds v (rounds_entries l n)) active
                  (elim o [ none ↦ none | some rest ↦ some (enter v d ∷ rest) ])
                ≡ onwards ((leb d 32 && is_allowed d active v) && are_safe_entries d active l)
                    (run n stack active)) [
                      | none ↦ λ later.
                          refused_first (leb d 32 && is_allowed d active v)
                            (are_safe_entries d active l) (run n stack active) later
                      | some rest ↦ λ later.
                          guarded v d (rounds_entries l n) rest active
                            (allowed v d (rounds_entries l n) rest active)
                          ∙ (ap (onwards (leb d 32 && is_allowed d active v)) later
                              ∙ onwards_twice (leb d 32 && is_allowed d active v)
                                  (are_safe_entries d active l) (run n stack active))
                    ])
          (all_entries l d n stack active)

  -- The loop of `_json_safe` over its stack ends within the rounds that the value takes, and gives
  -- what the recursion on the value gives: whether no value lies deeper than 32, all numbers are
  -- finite, all keys are texts and no container lies in itself.
  pub json_safe_lem : (v : Param F) → json_safe v ≡ some (is_allowed 0 [] v)
  unfolding json_safe run
  json_safe_lem v =
      allowed v 0 0 [] [] refl ∙ elim (is_allowed 0 [] v) as (λ b. onwards b (some true) ≡ some b) [
        | true ↦ refl
        | false ↦ refl
      ]
