-- ===== src/Sharing/Fence.antt =====
-- Requests of src/expra_connect/sharing/capabilities.py between steps that change the share.
use expra_connect.Prelude.{
  ℕ, suc, ◌+◌, ◌≤◌, ◌≡◌, refl, String, string_eq, pair_eq, ℕ_eq, ◌==◌, Bool, true, false, ◌&&◌,
  Option, none, some, ok, err, permission_error, List, [], ◌∷◌, Dict, lookup, erase, ◌⊎◌,
  lookup-nil, lookup-put, lookup-erase, contains, contains-insert, insert, if◌then◌else◌, arith,
  Bool-cases, inl, inr,
}
use text.Mathlib.TextEquality.{eq_iff}
use expra_connect.Identity.{NodeId}
use expra_connect.Sharing.{
  CapabilityShare, register, allow, revoke, revoke_peer, clear_grants, revoked_peer, erase_all,
  begin_request, finish_request, or_empty, is_still, revoked, without, store_allowed,
}

-- One change of a share by a method that returns.
pub data Step (s t : CapabilityShare) : Type 0 where
  registers : (c : Option String) (handler : ℕ) → register s c handler ≡ ok t → Step s t
  gives : (peer : NodeId) (c : String) → allow s peer c ≡ ok t → Step s t
  revokes : (peer : NodeId) (c : String) → revoke s peer c ≡ ok t → Step s t
  revokes_peer : (peer : NodeId) → t ≡ revoke_peer s peer → Step s t
  clears : t ≡ clear_grants s → Step s t

pub data Steps (s : CapabilityShare) : CapabilityShare → Type 0 where
  here : Steps s s
  next : {t u : CapabilityShare} → Steps s t → Step t u → Steps s u

-- the generation of a grant, if there is a grant
abbrev pub generation_of : CapabilityShare → NodeId → String → Option ℕ
generation_of s peer c = lookup (peer, c) s.grant_generations

-- No grant has a generation that has not been given out yet.
pub record IsFresh (s : CapabilityShare) : Type 0 where
  pub bounded :
      (p : NodeId) (c : String) (g : ℕ) → generation_of s p c ≡ some g → g ≤ s.next_generation

-- the grant of generation `g` is there
abbrev holds : CapabilityShare → NodeId → String → ℕ → Bool
holds s p c g =
    contains c (or_empty (lookup p s.allowed)) && is_still (lookup (p, c) s.grant_generations) g

-- The generation `g` of a grant was given out and is over.
pub record IsOver (s : CapabilityShare) (p : NodeId) (c : String) (g : ℕ) : Type 0 where
  pub given_out : g ≤ s.next_generation
  pub over : holds s p c g ≡ false

lookup-erase_all :
    (k : NodeId × String) (p : NodeId) (l : List String) (d : Dict (NodeId × String) ℕ) (g : ℕ)
    → lookup k (erase_all p l d) ≡ some g
    → lookup k d ≡ some g
unfolding erase_all
lookup-erase_all k p [] d g h = h
lookup-erase_all k p (c ∷ l) d g h =
    ground (arith, lookup-erase_all k p l (erase (p, c) d) g h, lookup-erase (p, c) k d)

revoked_peer_generation :
    (s : CapabilityShare) (p q : NodeId) (c : String) (g : ℕ) (o : Option (List String))
    → generation_of (revoked_peer s q o) p c ≡ some g
    → generation_of s p c ≡ some g
revoked_peer_generation s p q c g none h = h
revoked_peer_generation s p q c g (some l) h = lookup-erase_all (p, c) q l s.grant_generations g h

contains-without :
    (x c : String) (l : List String) → contains c (without x l) ≡ true → contains c l ≡ true
contains-without x c [] h = h
contains-without x c (y ∷ l) h = ground (arith, contains-without x c l)

-- `discard` takes the text out.
contains-without_self : (c : String) (l : List String) → contains c (without c l) ≡ false
contains-without_self c [] = refl
contains-without_self c (y ∷ l) = ground (arith, contains-without_self c l)

-- the set of `p` after the set of `q` is stored
lookup-store_allowed :
    (q p c : String) (l : List String) (d : Dict NodeId (List String))
    → contains c (or_empty (lookup p (store_allowed q l d)))
      ≡ (if q == p then contains c l else contains c (or_empty (lookup p d)))
lookup-store_allowed q p c [] d = ground (arith, lookup-erase q p d)
lookup-store_allowed q p c (x ∷ l) d = ground (arith, lookup-put q p (x ∷ l) d)

revoked_holds :
    (s : CapabilityShare) (q x p c : String) (g : ℕ) (o : Option (List String))
    → lookup q s.allowed ≡ o
    → holds (revoked s q x o) p c g ≡ true
    → holds s p c g ≡ true
revoked_holds s q x p c g none e h = h
revoked_holds s q x p c g (some l) e h = ground (
  arith,
  lookup-store_allowed q p c (without x l) s.allowed,
  lookup-erase (q, x) (p, c) s.grant_generations,
  contains-without x c l,
  eq_iff q p,
)

revoked_peer-holds :
    (s : CapabilityShare) (q p c : String) (g : ℕ) (o : Option (List String))
    → holds (revoked_peer s q o) p c g ≡ true
    → holds s p c g ≡ true
revoked_peer-holds s q p c g none h = h
revoked_peer-holds s q p c g (some l) h =
    ground (arith, lookup-erase q p s.allowed, lookup-erase_all (p, c) q l s.grant_generations g)

allowed_holds :
    (s t : CapabilityShare) (q x p c : String) (g : ℕ)
    → allow s q x ≡ ok t
    → holds t p c g ≡ true
    → (holds s p c g ≡ true) ⊎ (suc s.next_generation ≤ g)
unfolding allow
allowed_holds s t q x p c g e h = ground (
  arith,
  lookup-put q p (insert x (or_empty (lookup q s.allowed))) s.allowed,
  lookup-put (q, x) (p, c) (s.next_generation + 1) s.grant_generations,
  contains-insert x c (or_empty (lookup q s.allowed)),
  eq_iff q p,
  eq_iff x c,
)

-- A step brings a grant to hold under the next generation only.
Step-holds :
    (s t : CapabilityShare) (p : NodeId) (c : String) (g : ℕ)
    → Step s t
    → holds t p c g ≡ true
    → (holds s p c g ≡ true) ⊎ (suc s.next_generation ≤ g)
unfolding register revoke revoke_peer clear_grants
Step-holds s t p c g (registers none handler e) h = absurd (ground arith)
Step-holds s t p c g (registers (some x) handler e) h = ground arith
Step-holds s t p c g (gives q x e) h = allowed_holds s t q x p c g e h
Step-holds s t p c g (revokes q x e) h =
    inl (revoked_holds s q x p c g (lookup q s.allowed) refl (ground arith))
Step-holds s t p c g (revokes_peer q e) h =
    inl (revoked_peer-holds s q p c g (lookup q s.allowed) (ground arith))
Step-holds s t p c g (clears e) h =
    absurd (ground (arith, lookup-nil {K = NodeId × String} {V = ℕ} (p, c)))

Step-next : (s t : CapabilityShare) → Step s t → s.next_generation ≤ t.next_generation
unfolding register allow revoke revoke_peer clear_grants
Step-next s t (registers none handler e) = absurd (ground arith)
Step-next s t (registers (some x) handler e) = ground arith
Step-next s t (gives q x e) = ground arith
Step-next s t (revokes q x e) = ground arith
Step-next s t (revokes_peer q e) = ground arith
Step-next s t (clears e) = ground arith

-- ... and the next generation is the one that the step has just given out.
Step-new :
    (s t : CapabilityShare) (p : NodeId) (c : String) (g : ℕ)
    → Step s t
    → generation_of t p c ≡ some g
    → (generation_of s p c ≡ some g) ⊎ (g ≡ t.next_generation)
unfolding register allow revoke revoke_peer clear_grants
Step-new s t p c g (registers none handler e) h = absurd (ground arith)
Step-new s t p c g (registers (some x) handler e) h = ground arith
Step-new s t p c g (gives q x e) h =
    ground (arith, lookup-put (q, x) (p, c) (s.next_generation + 1) s.grant_generations)
Step-new s t p c g (revokes q x e) h =
    ground (arith, lookup-erase (q, x) (p, c) s.grant_generations)
Step-new s t p c g (revokes_peer q e) h =
    inl (revoked_peer_generation s p q c g (lookup q s.allowed) (ground arith))
Step-new s t p c g (clears e) h =
    absurd (ground (arith, lookup-nil {K = NodeId × String} {V = ℕ} (p, c)))

Steps-next : (s t : CapabilityShare) → Steps s t → s.next_generation ≤ t.next_generation
Steps-next s t here = omega arith
Steps-next s t (next {t = m} r st) = omega (arith, Steps-next s m r, Step-next m t st)

Step-IsFresh : (s t : CapabilityShare) → Step s t → IsFresh s → IsFresh t
Step-IsFresh s t st f = record {
  bounded = λ p c g h. elim (Step-new s t p c g st h) [
    | inl old ↦ omega (arith, f.bounded p c g old, Step-next s t st)
    | inr new ↦ omega (arith, new)
  ];
}

-- If no grant of a share has a generation above the counter, this holds after any methods of the
-- share.
pub Steps-IsFresh : (s t : CapabilityShare) → Steps s t → IsFresh s → IsFresh t
Steps-IsFresh s t here f = f
Steps-IsFresh s t (next {t = m} r st) f = Step-IsFresh m t st (Steps-IsFresh s m r f)

Step-IsOver :
    (s t : CapabilityShare) (p : NodeId) (c : String) (g : ℕ)
    → Step s t
    → IsOver s p c g
    → IsOver t p c g
Step-IsOver s t p c g st o = record {
  given_out = omega (arith, o.given_out, Step-next s t st);
  over = elim (Bool-cases (holds t p c g)) [
    | inr f ↦ f
    | inl h ↦ elim (Step-holds s t p c g st h) [
      | inl old ↦ absurd (ground (arith, o.over))
      | inr new ↦ absurd (omega (arith, o.given_out))
    ]
  ];
}

Steps-IsOver :
    (s t : CapabilityShare) (p : NodeId) (c : String) (g : ℕ)
    → Steps s t
    → IsOver s p c g
    → IsOver t p c g
Steps-IsOver s t p c g here o = o
Steps-IsOver s t p c g (next {t = m} r st) o = Step-IsOver m t p c g st (Steps-IsOver s m p c g r o)

begin_generation :
    (s : CapabilityShare) (p : NodeId) (c : String) (h g : ℕ)
    → begin_request s p c ≡ ok (h, g)
    → generation_of s p c ≡ some g
unfolding begin_request
begin_generation s p c h g e = ground arith

revoked-IsOver :
    (s : CapabilityShare) (p : NodeId) (c : String) (g : ℕ) (o : Option (List String))
    → lookup p s.allowed ≡ o
    → g ≤ s.next_generation
    → IsOver (revoked s p c o) p c g
revoked-IsOver s p c g none e le = record { given_out = le; over = ground arith }
revoked-IsOver s p c g (some l) e le = record {
  given_out = le;
  over = ground (
    arith,
    lookup-store_allowed p p c (without c l) s.allowed,
    contains-without_self c l,
    eq_iff p p,
  );
}

revoke_result :
    (s t : CapabilityShare) (p : NodeId) (c : String)
    → revoke s p c ≡ ok t
    → t ≡ revoked s p c (lookup p s.allowed)
unfolding revoke
revoke_result s t p c e = ground arith

-- From a share whose grants have only generations that were given out: a request that began under a
-- grant gives no result once the grant was revoked, whatever methods ran before and after the
-- revocation, also when the same capability was allowed again.
pub revoked_gives_nothing :
    {R : Type 0} (s t u w : CapabilityShare) (p : NodeId) (c : String) (handler g : ℕ) (result : R)
    → IsFresh s
    → begin_request s p c ≡ ok (handler, g)
    → Steps s t
    → revoke t p c ≡ ok u
    → Steps u w
    → finish_request w p c handler g result
      ≡ err (permission_error "capability authorization changed during request")
unfolding finish_request
revoked_gives_nothing s t u w p c handler g result f b before r later =
    let le : g ≤ t.next_generation =
      omega (arith, f.bounded p c g (begin_generation s p c handler g b), Steps-next s t before) in
    let gone : IsOver u p c g =
      rw (revoke_result t u p c r) (revoked-IsOver t p c g (lookup p t.allowed) refl le) in
    ground (arith, (Steps-IsOver u w p c g later gone).over)

-- A request whose first half succeeds on a share gives its result out if the share is the same when
-- the handler returns.
pub unchanged_gives_result :
    {R : Type 0} (s : CapabilityShare) (p : NodeId) (c : String) (handler g : ℕ) (result : R)
    → begin_request s p c ≡ ok (handler, g)
    → finish_request s p c handler g result ≡ ok result
unfolding begin_request finish_request
unchanged_gives_result s p c handler g result b = ground arith
