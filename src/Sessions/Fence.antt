-- ===== src/Sessions/Fence.antt =====
-- The current connection generation of a session of src/expra_connect/remote/session.py.
use expra_connect.Prelude.{
  ◌≡◌, ◌≢◌, refl, sym, ap, subst, ◌∙◌, String, string_eq, option_eq, ◌==◌, Bool, not, Option, none,
  some, Result, ok, err, ◌>>=◌, raise_if, lookup, insert, Floats, arith, lookup-put, option_beq_iff,
  Bool-cases, inl, inr, ℕ,
}
use text.Mathlib.TextEquality.{eq_iff}
use expra_connect.Cluster.RoleState.{Moment}
use expra_connect.Sessions.{
  LogicalSession, LogicalSessionRegistry, SessionRequest, valid_token, validate_generation,
  owner_of, validated_clock, resumed, authenticate_at, authenticate_valid, inputs, authenticate,
  current_at, assert_current, current_inputs, with_inputs,
}

-- what a bind that returns has run
bind-ok :
    {A B : Type 0} (m : Result A) (f : A → Result B) (b : B)
    → (m >>= f) ≡ ok b
    → (a : A) × (m ≡ ok a) × (f a ≡ ok b)
bind-ok (ok a) f b e = (a, refl, e)
bind-ok (err x) f b e = absurd (ground arith)

validated_same : (g h : Option String) → validate_generation g ≡ ok h → h ≡ g
unfolding validate_generation
validated_same none h e = ground arith
validated_same (some x) h e = ground arith

module _ {F : Type 0} ⦃fl : Floats F⦄ where
  -- The session `i` is there and its connection generation is `g`.
  pub record IsActive (r : LogicalSessionRegistry F) (i : String) (g : Option String) : Type 0 where
    pub session : LogicalSession F
    pub known : lookup i r.sessions ≡ some session
    pub active : session.active_generation ≡ g

  resumed-IsActive :
      (r q : LogicalSessionRegistry F) (i j : String) (resume : Bool) (g : Option String)
      (s : LogicalSession F)
      → lookup i r.sessions ≡ some s
      → resumed r i resume g s ≡ (ok j, q)
      → IsActive q i g
  resumed-IsActive r q i j resume g s h e = elim (Bool-cases (g == s.active_generation)) [
    | inl same ↦ record {
      session = s;
      known = ground arith;
      active = sym ((option_beq_iff g s.active_generation).0 same);
    }
    | inr changed ↦ record {
      session = record s { retired = insert s.active_generation s.retired; active_generation = g };
      known = ground (
        arith,
        lookup-put i i
            (record s { retired = insert s.active_generation s.retired; active_generation = g })
            r.sessions,
        eq_iff i i,
      );
      active = refl;
    }
  ]

  authenticate_at-IsActive :
      (r q : LogicalSessionRegistry F) (i j : String) (resume : Bool) (owner : String)
      (g : Option String) (now : F) (o : Option (LogicalSession F))
      → lookup i r.sessions ≡ o
      → authenticate_at r i resume owner g now o ≡ (ok j, q)
      → IsActive q i g
  authenticate_at-IsActive r q i j resume owner g now none h e = absurd (ground arith)
  authenticate_at-IsActive r q i j resume owner g now (some s) h e =
      resumed-IsActive r q i j resume g s h (ground arith)

  current_at-IsActive :
      (r q : LogicalSessionRegistry F) (i : String) (g : Option String) (now : F)
      (o : Option (LogicalSession F))
      → lookup i r.sessions ≡ o
      → current_at r i g now o ≡ (ok tt, q)
      → IsActive r i g
  current_at-IsActive r q i g now none h e = absurd (ground arith)
  current_at-IsActive r q i g now (some s) h e = record {
    session = s;
    known = h;
    active = (option_beq_iff s.active_generation g).0 (ground arith);
  }

  read_same :
      (g h : Option String) (clock : Moment F) (now : F)
      → ◌>>=◌ {B = Option String × F} (validated_clock clock) (λ t. ok (g, t)) ≡ ok (h, now)
      → h ≡ g
  read_same g h clock now e =
      let (t, read, same) = bind-ok (validated_clock clock) _ (h, now) e in
      sym (ap (λ (p : Result (Option String × F)). first p) same)
    where
      first : Result (Option String × F) → Option String
      first (ok p) = p.0
      first (err x) = g

  inputs_same :
      (g h : Option String) (clock : Moment F) (now : F) → inputs g clock ≡ ok (h, now) → h ≡ g
  inputs_same g h clock now e =
      let (a, valid, later) = bind-ok (validate_generation g) _ (h, now) e in
      read_same a h clock now later ∙ validated_same g a valid

  current_inputs_same :
      (i : String) (g h : Option String) (clock : Moment F) (now : F)
      → current_inputs i g clock ≡ ok (h, now)
      → h ≡ g
  current_inputs_same i g h clock now e =
      let (a, valid, later) = bind-ok (validate_generation g) _ (h, now) e in
      let (u, checked, last) = bind-ok (raise_if (not (valid_token i)) _) _ (h, now) later in
      read_same a h clock now last ∙ validated_same g a valid

  authenticate_valid-IsActive :
      (r q : LogicalSessionRegistry F) (factory : ℕ → String) (request : SessionRequest)
      (i j : String) (g : Option String) (now : F)
      → authenticate_valid r factory request g now (some i) ≡ (ok j, q)
      → IsActive q i g
  authenticate_valid-IsActive r q factory request i j g now e =
      authenticate_at-IsActive r q i j request.resume (owner_of request) g now (lookup i r.sessions)
        refl (ground arith)

  with_inputs_ok :
      {A : Type 0} (r q : LogicalSessionRegistry F) (m : Result (Option String × F))
      (k : Option String → F → Result A × LogicalSessionRegistry F) (a : A)
      → with_inputs r m k ≡ (ok a, q)
      → (g : Option String) × (now : F) × (m ≡ ok (g, now)) × (k g now ≡ (ok a, q))
  with_inputs_ok r q (ok (g, now)) k a e = (g, now, refl, e)
  with_inputs_ok r q (err x) k a e = absurd (ground arith)

  -- A request that names a session and is accepted leaves the session there, with the generation of
  -- the request's connection as its active one.
  pub authenticate-IsActive :
      (r q : LogicalSessionRegistry F) (factory : ℕ → String) (clock : Moment F)
      (request : SessionRequest) (i j : String) (g : Option String)
      → request.session_id ≡ some i
      → authenticate r factory clock request g ≡ (ok j, q)
      → IsActive q i g
  unfolding authenticate
  authenticate-IsActive r q factory clock request i j g named e =
      let (h, now, read, at) = with_inputs_ok r q (inputs g clock) _ j e in
      subst (IsActive q i) (inputs_same g h clock now read) (
        authenticate_valid-IsActive r q factory request i j h now
          (ap (λ o. authenticate_valid r factory request h now o) (sym named) ∙ at))

  -- `assert_current` passes only for the active generation of the session.
  pub assert_current-IsActive :
      (r q : LogicalSessionRegistry F) (clock : Moment F) (i : String) (g : Option String)
      → assert_current r clock i g ≡ (ok tt, q)
      → IsActive r i g
  unfolding assert_current
  assert_current-IsActive r q clock i g e =
      let (h, now, read, at) = with_inputs_ok r q (current_inputs i g clock) _ tt e in
      subst (IsActive r i) (current_inputs_same i g h clock now read)
        (current_at-IsActive r q i h now (lookup i r.sessions) refl at)

  -- Once a request that names a session is accepted under a connection generation, `assert_current`
  -- accepts no other generation for the session in the registry that this leaves.
  pub replaced_generation_is_stale :
      (r q u : LogicalSessionRegistry F) (factory : ℕ → String) (clock later : Moment F)
      (request : SessionRequest) (i j : String) (old new : Option String)
      → request.session_id ≡ some i
      → authenticate r factory clock request new ≡ (ok j, q)
      → old ≢ new
      → assert_current q later i old ≢ (ok tt, u)
  replaced_generation_is_stale r q u factory clock later request i j old new named e n c =
      let a = authenticate-IsActive r q factory clock request i j new named e in
      let b = assert_current-IsActive q u later i old c in
      n (ground (arith, a.known, a.active, b.known, b.active))
