-- ===== src/Cluster/Invites/Spent.antt =====
-- The invites that were consumed in src/expra_connect/cluster/operations.py.
use expra_connect.Prelude.{
  ◌≡◌, ◌≢◌, refl, subst, String, string_eq, true, false, Option, none, some, Result, ok, err, arith,
  lookup, contains, contains-insert, Floats, Bool-cases, inl, inr,
}
use text.Mathlib.TextEquality.{eq_iff}
use expra_connect.Identity.{NodeId}
use expra_connect.Cluster.Models.{worker, ClusterRole, InviteRecord}
use expra_connect.Cluster.Operations.{Cluster, assign, apply_role_state, is_active_coordinator}
use expra_connect.Cluster.Invites.{
  consume_invite, first_of, consume_with, consume_fresh, admit, fresh, spend,
}

module _ {F : Type 0} ⦃fl : Floats F⦄ where
  -- Assigning a role leaves the invites as they are.
  pub assign_used :
      (c d : Cluster F) (n : NodeId) (role : ClusterRole) (now : F)
      → assign c n role now ≡ ok d
      → d.used_invites ≡ c.used_invites
  unfolding assign apply_role_state
  assign_used c d n role now e = ground arith

  -- An invite with this digest was consumed, or admits its node again.
  pub record IsSpent (c : Cluster F) (digest : String) : Type 0 where
    pub used : contains digest c.used_invites ≡ true

  admit_used :
      (digest : String) (i j : InviteRecord F) (c d : Cluster F) (m : Result (Cluster F))
      → ((x : Cluster F) → m ≡ ok x → x.used_invites ≡ c.used_invites)
      → admit digest i c m ≡ (ok j, d)
      → d.used_invites ≡ c.used_invites
  admit_used digest i j c d (err x) k e = absurd (ground arith)
  admit_used digest i j c d (ok x) k e = ground (arith, k x refl)

  consume_fresh-IsSpent :
      (c d : Cluster F) (token digest : String) (n : NodeId) (clock : F)
      (m : Result (InviteRecord F)) (j : InviteRecord F)
      → consume_fresh c token digest n clock m ≡ (ok j, d)
      → IsSpent d digest
  consume_fresh-IsSpent c d token digest n clock (err x) j e = absurd (ground arith)
  consume_fresh-IsSpent c d token digest n clock (ok i) j e =
      let same =
        admit_used digest i j (spend c token digest) d
          (assign (spend c token digest) n worker clock)
          (λ x. assign_used (spend c token digest) x n worker clock) e in
      record {
        used =
            ground
              (arith, same, contains-insert digest digest c.used_invites, eq_iff digest digest);
      }

  consume_with-IsSpent :
      (c d : Cluster F) (token digest : String) (n : NodeId) (current clock : F)
      (o : Option (InviteRecord F)) (j : InviteRecord F)
      → consume_with c token digest n current clock false o ≡ (ok j, d)
      → IsSpent d digest
  consume_with-IsSpent c d token digest n current clock none j e =
      consume_fresh-IsSpent c d token digest n clock _ j e
  consume_with-IsSpent c d token digest n current clock (some a) j e = absurd (ground arith)

  fresh_unspent :
      (c : Cluster F) (o : Option (InviteRecord F)) (n : NodeId) (current : F) (j : InviteRecord F)
      → fresh c o true n current ≢ ok j
  fresh_unspent c none n current j e = ground arith
  fresh_unspent c (some i) n current j e = ground arith

  fresh_refused :
      (c d : Cluster F) (token digest : String) (n : NodeId) (clock : F)
      (m : Result (InviteRecord F)) (j : InviteRecord F)
      → ((i : InviteRecord F) → m ≢ ok i)
      → consume_fresh c token digest n clock m ≢ (ok j, d)
  fresh_refused c d token digest n clock (err x) j k e = ground arith
  fresh_refused c d token digest n clock (ok i) j k e = k i refl

  with_spent_refused :
      (c d : Cluster F) (token digest : String) (n : NodeId) (current clock : F)
      (o : Option (InviteRecord F)) (j : InviteRecord F)
      → IsSpent c digest
      → consume_with c token digest n current clock false o ≢ (ok j, d)
  with_spent_refused c d token digest n current clock (some a) j s e = ground arith
  with_spent_refused c d token digest n current clock none j s e =
      fresh_refused c d token digest n clock _ j
        (λ i h.
          fresh_unspent c (first_of (lookup token c.invites) (lookup digest c.invites)) n current i
            (subst
              (λ b.
                fresh c (first_of (lookup token c.invites) (lookup digest c.invites)) b n current
                ≡ ok i)
              s.used h))
        e

module _ {F : Type 0} ⦃fl : Floats F⦄ (hash_invite : String → String) where
  pub consume-IsSpent :
      (c d : Cluster F) (token : String) (n : NodeId) (current clock : F) (j : InviteRecord F)
      → consume_invite hash_invite c token n current clock false ≡ (ok j, d)
      → IsSpent d (hash_invite token)
  unfolding consume_invite
  consume-IsSpent c d token n current clock j e = elim (Bool-cases (is_active_coordinator c)) [
    | inl a ↦
        consume_with-IsSpent c d token (hash_invite token) n current clock
          (lookup (hash_invite token) c.join_admissions) j (ground arith)
    | inr b ↦ absurd (ground arith)
  ]

  pub spent_refused :
      (c d : Cluster F) (token : String) (n : NodeId) (current clock : F) (j : InviteRecord F)
      → IsSpent c (hash_invite token)
      → consume_invite hash_invite c token n current clock false ≢ (ok j, d)
  unfolding consume_invite
  spent_refused c d token n current clock j s e = elim (Bool-cases (is_active_coordinator c)) [
    | inl a ↦
        with_spent_refused c d token (hash_invite token) n current clock
          (lookup (hash_invite token) c.join_admissions) j s (ground arith)
    | inr b ↦ ground arith
  ]
