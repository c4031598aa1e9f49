-- ===== src/Sessions/Bounds.antt =====
-- The number of sessions in the registry of src/expra_connect/remote/session.py.
use expra_connect.Prelude.{
  ℕ, suc, ◌+◌, ◌≤◌, ◌≡◌, refl, String, string_eq, option_eq, ◌==◌, Bool, true, false, not, Option,
  none, some, Result, ok, err, List, [], ◌∷◌, Dict, lookup, put, erase, contains, length, leb,
  if◌then◌else◌, Floats, arith, Bool-cases, inl, inr,
}
use expra_connect.Cluster.RoleState.{Moment}
use expra_connect.Sessions.{
  LogicalSession, LogicalSessionRegistry, SessionRequest, valid_token, prune, drop_expired,
  add_session, allocated, create, resumed, authenticate_at, authenticate_valid, authenticate,
  allocate_id, with_inputs, inputs, owner_of, dropped,
}

module _ {V : Type 0} where
  length-put-le : (k : String) (v : V) (d : Dict String V) → length (put k v d) ≤ length d + 1
  unfolding put
  length-put-le k v [] = ground arith
  length-put-le k v ((j, w) ∷ d) = ground (arith, length-put-le k v d)

  length-put_known :
      (k : String) (v w : V) (d : Dict String V)
      → lookup k d ≡ some w
      → length (put k v d) ≡ length d
  unfolding put lookup
  length-put_known k v w [] e = absurd (ground arith)
  length-put_known k v w ((j, x) ∷ d) e = ground (arith, length-put_known k v w d)

  length-erase-le : (k : String) (d : Dict String V) → length (erase k d) ≤ length d
  unfolding erase
  length-erase-le k [] = ground arith
  length-erase-le k ((j, w) ∷ d) = ground (arith, length-erase-le k d)

module _ {F : Type 0} ⦃fl : Floats F⦄ where
  drop_expired-le :
      (t : F) (i : String) (o : Option (LogicalSession F)) (d : Dict String (LogicalSession F))
      → length (drop_expired t i o d) ≤ length d
  drop_expired-le t i none d = omega arith
  drop_expired-le t i (some s) d = ground (arith, length-erase-le i d)

  length-prune-le :
      (now : F) (l : List (F × String)) (d : Dict String (LogicalSession F))
      → length (prune now l d).1 ≤ length d
  unfolding prune
  length-prune-le now [] d = omega arith
  length-prune-le now ((t, i) ∷ l) d = ground (
    arith,
    length-prune-le now l (drop_expired t i (lookup i d) d),
    drop_expired-le t i (lookup i d) d,
  )

  -- At most as many sessions as the registry was made for.
  pub record IsBounded (r : LogicalSessionRegistry F) : Type 0 where
    pub bounded : length r.sessions ≤ r.max_sessions

  allocated-IsBounded :
      (r : LogicalSessionRegistry F) (owner : String) (g : Option String) (now : F)
      (m : Result String)
      → suc (length r.sessions) ≤ r.max_sessions
      → IsBounded (allocated r owner g now m).1
  unfolding add_session
  allocated-IsBounded r owner g now (err e) h = record { bounded = omega (arith, h) }
  allocated-IsBounded r owner g now (ok i) h = record {
    bounded = omega (arith, h, length-put-le i _ r.sessions);
  }

  create-IsBounded :
      (r : LogicalSessionRegistry F) (factory : ℕ → String) (owner : String) (g : Option String)
      (now : F)
      → IsBounded r
      → IsBounded (create r factory owner g now).1
  unfolding create
  create-IsBounded r factory owner g now b =
      elim (Bool-cases (leb r.max_sessions (length (prune now r.expirations r.sessions).1))) [
        | inl full ↦ rw full (record {
          bounded = omega (arith, b.bounded, length-prune-le now r.expirations r.sessions);
        })
        | inr room ↦ rw room (
            allocated-IsBounded
              (record r {
                sessions = (prune now r.expirations r.sessions).1;
                expirations = (prune now r.expirations r.sessions).0;
              })
              owner g now (allocate_id 100 factory (prune now r.expirations r.sessions).1)
              (ground arith))
      ]

  dropped-IsBounded :
      (r : LogicalSessionRegistry F) (i : String) → IsBounded r → IsBounded (dropped r i)
  dropped-IsBounded r i b = record {
    bounded = omega (arith, b.bounded, length-erase-le i r.sessions);
  }

  -- what a method leaves is bounded, where each of its ends is
  if-IsBounded :
      {A : Type 0} (c : Bool) (x y : Result A × LogicalSessionRegistry F)
      → IsBounded x.1
      → IsBounded y.1
      → IsBounded (if c then x else y).1
  if-IsBounded true x y h k = h
  if-IsBounded false x y h k = k

  resumed-IsBounded :
      (r : LogicalSessionRegistry F) (i : String) (resume : Bool) (g : Option String)
      (s : LogicalSession F)
      → lookup i r.sessions ≡ some s
      → IsBounded r
      → IsBounded (resumed r i resume g s).1
  resumed-IsBounded r i resume g s e b = if-IsBounded (g == s.active_generation) _ _ b (
      if-IsBounded (not resume) _ _ b (
        if-IsBounded (leb r.max_generations (length s.retired)) _ _ (dropped-IsBounded r i b)
          (record { bounded = omega (arith, b.bounded, length-put_known i _ s r.sessions e) })))

  authenticate_at-IsBounded :
      (r : LogicalSessionRegistry F) (i : String) (resume : Bool) (owner : String)
      (g : Option String) (now : F) (o : Option (LogicalSession F))
      → lookup i r.sessions ≡ o
      → IsBounded r
      → IsBounded (authenticate_at r i resume owner g now o).1
  authenticate_at-IsBounded r i resume owner g now none e b = dropped-IsBounded r i b
  authenticate_at-IsBounded r i resume owner g now (some s) e b =
      if-IsBounded (fl.le s.expires_at now) _ _ (dropped-IsBounded r i b) (
        if-IsBounded (not (s.owner == owner)) _ _ b
          (if-IsBounded (contains g s.retired) _ _ b (resumed-IsBounded r i resume g s e b)))

  authenticate_valid-IsBounded :
      (r : LogicalSessionRegistry F) (factory : ℕ → String) (q : SessionRequest) (g : Option String)
      (now : F) (o : Option String)
      → IsBounded r
      → IsBounded (authenticate_valid r factory q g now o).1
  authenticate_valid-IsBounded r factory q g now none b =
      create-IsBounded r factory (owner_of q) g now b
  authenticate_valid-IsBounded r factory q g now (some i) b =
      if-IsBounded (not (valid_token i)) _ _ b
        (authenticate_at-IsBounded r i q.resume (owner_of q) g now (lookup i r.sessions) refl b)

  with_inputs-IsBounded :
      {A : Type 0} (r : LogicalSessionRegistry F) (m : Result (Option String × F))
      (k : Option String → F → Result A × LogicalSessionRegistry F)
      → IsBounded r
      → ((g : Option String) (now : F) → IsBounded (k g now).1)
      → IsBounded (with_inputs r m k).1
  with_inputs-IsBounded r (err e) k b h = b
  with_inputs-IsBounded r (ok (g, now)) k b h = h g now

  -- If a registry holds at most `max_sessions` sessions, it does so after `authenticate`, which may
  -- create, resume or drop a session, whether it returns or raises.
  pub authenticate-IsBounded :
      (r : LogicalSessionRegistry F) (factory : ℕ → String) (clock : Moment F) (q : SessionRequest)
      (g : Option String)
      → IsBounded r
      → IsBounded (authenticate r factory clock q g).1
  unfolding authenticate
  authenticate-IsBounded r factory clock q g b =
      with_inputs-IsBounded r (inputs g clock) _ b
        λ h now. authenticate_valid-IsBounded r factory q h now q.session_id b
