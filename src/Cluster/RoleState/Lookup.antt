-- ===== src/Cluster/RoleState/Lookup.antt =====
-- The index of assignments as a search, and what a replacement does to it, to the ids and to
-- counts.
use expra_connect.Prelude.{
  ◌+◌, ◌≡◌, refl, string_eq, option_eq, ◌==◌, Bool, true, false, Option, none, some, List, [], ◌∷◌,
  map, if◌then◌else◌, Dict, lookup, lookup-put, filter, any, count, find?, distinct, contains, to_ℕ,
  All, arith, Bool-cases, inl, inr, option_beq_iff, string_eq,
}
use text.Mathlib.TextEquality.{eq_iff}
use expra_connect.Identity.{NodeId}
use expra_connect.Cluster.Models.{RoleAssignment}
use expra_connect.Cluster.RoleState.{is_bound, index_assignments, add_to_index, replace_assignment}

-- the ids of the bound assignments, in order
abbrev pub ids : List RoleAssignment → List (Option NodeId)
ids l = map (λ a. a.node_id) (filter is_bound l)

abbrev pub has_id : NodeId → RoleAssignment → Bool
has_id n a = a.node_id == some n

abbrev pub find_id : NodeId → List RoleAssignment → Option RoleAssignment
find_id n = find? (has_id n)

abbrev pub or_else : {A : Type 0} → Option A → Option A → Option A
or_else (some a) o = some a
or_else none o = o

pub contains-ids :
    (n : NodeId) (l : List RoleAssignment) → contains (some n) (ids l) ≡ any (has_id n) l
contains-ids n [] = refl
contains-ids n (a ∷ l) = ground (arith, contains-ids n l)

pub find_id-none :
    (n : NodeId) (l : List RoleAssignment) → any (has_id n) l ≡ false → find_id n l ≡ none
find_id-none n [] h = refl
find_id-none n (a ∷ l) h = ground (arith, find_id-none n l)

lookup-add :
    (n : NodeId) (o : Option NodeId) (a : RoleAssignment) (d : Dict NodeId RoleAssignment)
    → lookup n (add_to_index o a d) ≡ (if o == some n then some a else lookup n d)
lookup-add n none a d = refl
lookup-add n (some i) a d = lookup-put i n a d

pub distinct_tail :
    (a : RoleAssignment) (l : List RoleAssignment)
    → distinct (ids (a ∷ l)) ≡ true
    → distinct (ids l) ≡ true
distinct_tail a l h = ground arith

-- With distinct ids, the id of the first is none of the rest.
pub head_unique :
    (n : NodeId) (a : RoleAssignment) (l : List RoleAssignment)
    → distinct (ids (a ∷ l)) ≡ true
    → has_id n a ≡ true
    → any (has_id n) l ≡ false
head_unique n a l h e =
    let at_n : a.node_id ≡ some n = (option_beq_iff a.node_id (some n)).0 e in
    ground (arith, contains-ids n l)

pub lookup-index :
    (n : NodeId) (l : List RoleAssignment) (d : Dict NodeId RoleAssignment)
    → distinct (ids l) ≡ true
    → lookup n (index_assignments l d) ≡ or_else (find_id n l) (lookup n d)
unfolding index_assignments
lookup-index n [] d h = refl
lookup-index n (a ∷ l) d h = ground (
  arith,
  lookup-index n l (add_to_index a.node_id a d) (distinct_tail a l h),
  lookup-add n a.node_id a d,
  head_unique n a l h,
  find_id-none n l,
)

pub ids-replace :
    (x : RoleAssignment) (l : List RoleAssignment) → ids (replace_assignment x l) ≡ ids l
unfolding replace_assignment
ids-replace x [] = refl
ids-replace x (a ∷ l) = ground (arith, ids-replace x l, option_beq_iff a.node_id x.node_id)

pub any-replace :
    (n : NodeId) (x : RoleAssignment) (l : List RoleAssignment)
    → any (has_id n) (replace_assignment x l) ≡ any (has_id n) l
any-replace n x l =
    ground (arith, contains-ids n l, contains-ids n (replace_assignment x l), ids-replace x l)

-- Where no assignment has the id, a replacement changes nothing.
pub replace_absent :
    (m : NodeId) (x : RoleAssignment) (l : List RoleAssignment)
    → x.node_id ≡ some m
    → any (has_id m) l ≡ false
    → replace_assignment x l ≡ l
unfolding replace_assignment
replace_absent m x [] e h = refl
replace_absent m x (a ∷ l) e h = ground (arith, replace_absent m x l e)

pub find_id-replace :
    (n m : NodeId) (x : RoleAssignment) (l : List RoleAssignment)
    → x.node_id ≡ some m
    → find_id n (replace_assignment x l)
      ≡ (if m == n then (if any (has_id n) l then some x else none) else find_id n l)
unfolding replace_assignment
find_id-replace n m x [] e = ground arith
find_id-replace n m x (a ∷ l) e = ground (
  arith,
  find_id-replace n m x l e,
  option_beq_iff a.node_id (some n),
  option_beq_iff a.node_id (some m),
  eq_iff m n,
)

-- A replacement of the one assignment with the id changes a count by that assignment alone.
pub count-replace :
    (p : RoleAssignment → Bool) (m : NodeId) (cur x : RoleAssignment) (l : List RoleAssignment)
    → distinct (ids l) ≡ true
    → find_id m l ≡ some cur
    → x.node_id ≡ some m
    → count p (replace_assignment x l) + to_ℕ (p cur) ≡ count p l + to_ℕ (p x)
unfolding replace_assignment
count-replace p m cur x [] d f e = absurd (ground arith)
count-replace p m cur x (a ∷ l) d f e = ground (
  arith,
  count-replace p m cur x l (distinct_tail a l d),
  replace_absent m x l e,
  head_unique m a l d,
)

pub All-replace {κ} :
    (P : RoleAssignment → Type κ) (x : RoleAssignment) (l : List RoleAssignment)
    → All P l
    → P x
    → All P (replace_assignment x l)
unfolding replace_assignment
All-replace P x [] h k = h
All-replace P x (a ∷ l) h k = elim (Bool-cases (a.node_id == x.node_id)) [
  | inl t ↦ rw t (k, All-replace P x l h.1 k)
  | inr f ↦ rw f (h.0, All-replace P x l h.1 k)
]
