-- ===== src/Surfaces/JsonSafe/Rounds.antt =====
-- The rounds of `_json_safe` of src/expra_connect/surfaces/protocol.py, and the recursion on the
-- value that the loop stands for.
use expra_connect.Prelude.{
  ℕ, suc, ◌≡◌, refl, sym, ap, ◌∙◌, ℕ_eq, ◌==◌, Bool, true, false, not, ◌&&◌, Option, none, some,
  List, ◌∷◌, contains, if◌then◌else◌, Floats, ltb, leb, arith, Bool-cases, inl, inr,
}
use expra_connect.Surfaces.JsonSafe.{
  Param, Params, Entries, Frame, null, bool, int, float, text, list, dict, other, no_item, item,
  no_entry, entry, enter, leave, without, rounds, rounds_items, rounds_entries, visit, round, run,
}

-- what a loop gives that goes on if a test holds
abbrev pub onwards : Bool → Option Bool → Option Bool
onwards true o = o
onwards false o = some false

shallow : (d : ℕ) → leb d 32 ≡ true → ltb 32 d ≡ false
shallow d h = ground arith

deep : (d : ℕ) → leb d 32 ≡ false → ltb 32 d ≡ true
deep d h = ground arith

same_number : (i : ℕ) → (i == i) ≡ true
same_number i = ground arith

pub onwards_twice : (a b : Bool) (o : Option Bool) → onwards a (onwards b o) ≡ onwards (a && b) o
onwards_twice true b o = refl
onwards_twice false b o = refl

pub refused_first :
    (a b : Bool) (o : Option Bool) → some false ≡ onwards b o → some false ≡ onwards (a && b) o
refused_first true b o h = h
refused_first false b o h = refl

module _ {F : Type 0} ⦃fl : Floats F⦄ where
  -- No value lies deeper than 32, no number is infinite or nan, each key is a text, and no container
  -- lies in itself or in one of `active`.
  unfoldable mutual
    pub is_allowed : ℕ → List ℕ → Param F → Bool
    is_allowed depth active null = true
    is_allowed depth active (bool b) = true
    is_allowed depth active int = true
    is_allowed depth active (text s) = true
    is_allowed depth active (float t) = fl.is_finite t
    is_allowed depth active other = false
    is_allowed depth active (list i l) =
        not (contains i active) && are_safe (suc depth) (i ∷ active) l
    is_allowed depth active (dict i l) =
        not (contains i active) && are_safe_entries (suc depth) (i ∷ active) l

    pub are_safe : ℕ → List ℕ → Params F → Bool
    are_safe depth active no_item = true
    are_safe depth active (item v l) =
        (leb depth 32 && is_allowed depth active v) && are_safe depth active l

    pub are_safe_entries : ℕ → List ℕ → Entries F → Bool
    are_safe_entries depth active no_entry = true
    are_safe_entries depth active (entry none v l) = false
    are_safe_entries depth active (entry (some k) v l) =
        (leb depth 32 && is_allowed depth active v) && are_safe_entries depth active l

  -- the rounds that follow one
  abbrev pub resume : ℕ → Option (List (Frame F) × List ℕ) → Option Bool
  resume n none = some false
  resume n (some next) = run n next.0 next.1

  one_round :
      (f : Frame F) (n : ℕ) (stack : List (Frame F)) (active : List ℕ)
      → run (suc n) (f ∷ stack) active ≡ resume n (round f stack active)
  unfolding run
  one_round f n stack active =
      elim (round f stack active)
        as (λ o. elim o [ none ↦ some false | some next ↦ run n next.0 next.1 ] ≡ resume n o) [
          | none ↦ refl
          | some next ↦ refl
        ]

  deep_round :
      (v : Param F) (d : ℕ) (stack : List (Frame F)) (active : List ℕ)
      → leb d 32 ≡ false
      → round (enter v d) stack active ≡ none
  unfolding round
  deep_round v d stack active h = ap (λ b. if b then none else visit v d stack active) (deep d h)

  shallow_round :
      (v : Param F) (d : ℕ) (stack : List (Frame F)) (active : List ℕ)
      → leb d 32 ≡ true
      → round (enter v d) stack active ≡ visit v d stack active
  unfolding round
  shallow_round v d stack active h =
      ap (λ b. if b then none else visit v d stack active) (shallow d h)

  pub entered :
      (v : Param F) (d n : ℕ) (stack : List (Frame F)) (active : List ℕ)
      → leb d 32 ≡ true
      → run (suc n) (enter v d ∷ stack) active ≡ resume n (visit v d stack active)
  entered v d n stack active h =
      one_round (enter v d) n stack active ∙ ap (resume n) (shallow_round v d stack active h)

  -- a container is left once its values are done
  pub left :
      (i n : ℕ) (stack : List (Frame F)) (active : List ℕ)
      → run (suc n) (leave i ∷ stack) (i ∷ active) ≡ run n stack active
  unfolding round without
  left i n stack active =
      one_round (leave i) n stack (i ∷ active)
      ∙ ap (λ b. run n stack (if b then active else i ∷ without i active)) (same_number i)

  too_deep :
      (v : Param F) (d n : ℕ) (stack : List (Frame F)) (active : List ℕ)
      → leb d 32 ≡ false
      → run (suc n) (enter v d ∷ stack) active ≡ some false
  too_deep v d n stack active h =
      one_round (enter v d) n stack active ∙ ap (resume n) (deep_round v d stack active h)

  -- each value takes a round at least
  rounds_later : (v : Param F) (n : ℕ) → (m : ℕ) × (rounds v n ≡ suc m)
  unfolding rounds
  rounds_later null n = (n, refl)
  rounds_later (bool b) n = (n, refl)
  rounds_later int n = (n, refl)
  rounds_later (float t) n = (n, refl)
  rounds_later (text s) n = (n, refl)
  rounds_later (list i l) n = (rounds_items l (suc n), refl)
  rounds_later (dict i l) n = (rounds_entries l (suc n), refl)
  rounds_later other n = (n, refl)

  pub guarded :
      (v : Param F) (d n : ℕ) (stack : List (Frame F)) (active : List ℕ)
      → (leb d 32 ≡ true
          → run (rounds v n) (enter v d ∷ stack) active
            ≡ onwards (is_allowed d active v) (run n stack active))
      → run (rounds v n) (enter v d ∷ stack) active
        ≡ onwards (leb d 32 && is_allowed d active v) (run n stack active)
  guarded v d n stack active go = elim (Bool-cases (leb d 32)) [
    | inl h ↦ go h ∙ ap (λ b. onwards (b && is_allowed d active v) (run n stack active)) (sym h)
    | inr h ↦
        ap (λ m. run m (enter v d ∷ stack) active) (rounds_later v n).1
        ∙ (too_deep v d (rounds_later v n).0 stack active h
            ∙ ap (λ b. onwards (b && is_allowed d active v) (run n stack active)) (sym h))
  ]

  -- the rounds that follow, if all keys are texts
  abbrev pub pushed : ℕ → List ℕ → Option (List (Frame F)) → Option Bool
  pushed n active none = some false
  pushed n active (some stack) = run n stack active

  pub resume-pushed :
      (n : ℕ) (active : List ℕ) (o : Option (List (Frame F)))
      → resume n (elim o [ none ↦ none | some rest ↦ some (rest, active) ]) ≡ pushed n active o
  resume-pushed n active none = refl
  resume-pushed n active (some rest) = refl
