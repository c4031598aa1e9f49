-- ===== src/Pairing/Single.antt =====
-- The active transactions of a peer in src/expra_connect/pairing/manager.py.
use expra_connect.Prelude.{
  ℕ, ◌+◌, ◌≤◌, ◌≡◌, refl, String, string_eq, Bool, true, false, Option, none, some, List, [], ◌∷◌,
  map, Dict, put, erase, filter, any, count, to_ℕ, find?-none, Floats, arith, Bool-cases, inl, inr,
  subst, ◌⊎◌,
}
use text.Mathlib.TextEquality.{eq_iff}
use expra_connect.Identity.{NodeId}
use expra_connect.Pairing.{
  Direction, Material, PendingPairing, PairingManager, is_pending_for, is_direction,
  find_pending_for, erase_expired, begun, init_pairing, approve, abort, prune_expired, revoke,
  revoke_trusted, revoke_grant, outbound, inbound,
}
use expra_connect.Pairing.Relationship.{mark_auth_failure, mark_auth_ok}
use expra_connect.Pairing.Calls.{
  Call, begins, approves, receives, confirms, accepts, aborts, prunes, revokes, revokes_trusted,
  revokes_grant, fails_auth, passes_auth, call, begin_cases, IsBegun,
}
use expra_connect.Pairing.Trust.{IsTrusting, confirm_cases, accept_cases}

-- How many values of a dict pass a test.
module _ {V : Type 0} where
  abbrev count_values : (V → Bool) → Dict String V → ℕ
  count_values p d = count p (map (λ q. q.1) d)

  count_values-put :
      (p : V → Bool) (k : String) (v : V) (d : Dict String V)
      → count_values p (put k v d) ≤ count_values p d + to_ℕ (p v)
  unfolding put
  count_values-put p k v [] = omega arith
  count_values-put p k v ((j, w) ∷ d) = ground (arith, count_values-put p k v d)

  count_values-erase :
      (p : V → Bool) (k : String) (d : Dict String V)
      → count_values p (erase k d) ≤ count_values p d
  unfolding erase
  count_values-erase p k [] = omega arith
  count_values-erase p k ((j, w) ∷ d) = ground (arith, count_values-erase p k d)

  count_values-filter :
      (p : V → Bool) (q : String × V → Bool) (d : Dict String V)
      → count_values p (filter q d) ≤ count_values p d
  count_values-filter p q [] = omega arith
  count_values-filter p q ((j, w) ∷ d) = ground (arith, count_values-filter p q d)

  -- What fails a weaker test fails.
  count_values-none :
      (p q : V → Bool) (d : Dict String V)
      → ((v : V) → p v ≡ true → q v ≡ true)
      → any q (map (λ e. e.1) d) ≡ false
      → count_values p d ≡ 0
  count_values-none p q [] h k = refl
  count_values-none p q ((j, w) ∷ d) h k =
      ground (arith, h w, count_values-none p q d h, Bool-cases (p w))

is_direction_eq : (a b : Direction) → is_direction a b ≡ true → a ≡ b
is_direction_eq outbound outbound h = refl
is_direction_eq inbound inbound h = refl
is_direction_eq outbound inbound h = absurd (ground arith)
is_direction_eq inbound outbound h = absurd (ground arith)

module _ {F : Type 0} ⦃fl : Floats F⦄ where
  count_values-erase_expired :
      (p : PendingPairing F → Bool) (l : List String) (d : Dict String (PendingPairing F))
      → count_values p (erase_expired l d) ≤ count_values p d
  unfolding erase_expired
  count_values-erase_expired p [] d = omega arith
  count_values-erase_expired p (k ∷ l) d =
      omega (arith, count_values-erase_expired p l (erase k d), count_values-erase p k d)

  -- From the time `now` on, at most one transaction is active for a peer in a direction.
  pub record IsSingle (m : PairingManager F) (now : F) : Type 0 where
    pub at_most_one :
        (peer : NodeId) (d : Direction) (t : F)
        → fl.is_finite t ≡ true
        → fl.le now t ≡ true
        → count (is_pending_for peer (some d) t) (map (λ p. p.1) m.pending) ≤ 1

  pub init-IsSingle : (n : NodeId) (ttl now : F) → IsSingle (init_pairing n ttl) now
  unfolding init_pairing
  init-IsSingle n ttl now = record { at_most_one = λ peer d t f h. omega arith }

  -- A manager with no more of any kind of transaction than `m`.
  record IsFewer (m n : PairingManager F) : Type 0 where
    fewer : (p : PendingPairing F → Bool) → count_values p n.pending ≤ count_values p m.pending

  fewer-IsSingle :
      (m n : PairingManager F) (now : F) → IsFewer m n → IsSingle m now → IsSingle n now
  fewer-IsSingle m n now f s = record {
    at_most_one = λ peer d t h k.
        omega (arith, s.at_most_one peer d t h k, f.fewer (is_pending_for peer (some d) t));
  }

  pub is_pending_earlier :
      (peer : NodeId) (d : Direction) (u t : F) (x : PendingPairing F)
      → fl.le u t ≡ true
      → is_pending_for peer (some d) t x ≡ true
      → is_pending_for peer (some d) u x ≡ true
  is_pending_earlier peer d u t x h k = ground (arith, fl.le-lt u t x.expires_at h)

  none_later :
      (m : PairingManager F) (u t : F) (peer : NodeId) (d : Direction)
      → find_pending_for m peer (some d) u ≡ none
      → fl.le u t ≡ true
      → count_values (is_pending_for peer (some d) t) m.pending ≡ 0
  unfolding find_pending_for
  none_later m u t peer d free le =
      count_values-none (is_pending_for peer (some d) t) (is_pending_for peer (some d) u) m.pending
        (λ x. is_pending_earlier peer d u t x le)
        (find?-none (is_pending_for peer (some d) u) (map (λ p. p.1) m.pending) free)

  -- A transaction that passes the test is in the direction.
  its_direction :
      (new : PendingPairing F) (u t : F) (m : PairingManager F) (peer : NodeId) (d : Direction)
      → is_pending_for peer (some d) t new ≡ true
      → find_pending_for m new.peer_id (some new.direction) u ≡ none
      → find_pending_for m peer (some d) u ≡ none
  its_direction new u t m peer d own free =
      subst (λ x. find_pending_for m x (some d) u ≡ none) (ground (arith, eq_iff new.peer_id peer))
        (subst (λ x. find_pending_for m new.peer_id (some x) u ≡ none)
          (is_direction_eq new.direction d (ground arith)) free)

  begun-IsSingle :
      (m : PairingManager F) (now u : F) (new : PendingPairing F)
      → fl.is_finite now ≡ true
      → fl.is_finite u ≡ true
      → fl.le now u ≡ true
      → find_pending_for m new.peer_id (some new.direction) u ≡ none
      → IsSingle m now
      → IsSingle (begun m new).1 u
  begun-IsSingle m now u new fn fu le free s = record {
    at_most_one = λ peer d t ft h.
        let test = is_pending_for peer (some d) t in
        let added = count_values-put test new.transaction_id new m.pending in
        elim (Bool-cases (test new)) [
          | inr f ↦
              ground
                (arith, added, f, s.at_most_one peer d t ft (fl.le_trans now u t fn fu ft le h))
          | inl own ↦ ground (
            arith,
            added,
            own,
            none_later m u t peer d (its_direction new u t m peer d own free) h,
          )
        ];
  }

  trusting-IsFewer :
      (m n : PairingManager F) (i : String) (now : F) → (n ≡ m) ⊎ IsTrusting m n i now → IsFewer m n
  trusting-IsFewer m n i now (inl e) = record { fewer = λ p. rw e (omega arith) }
  trusting-IsFewer m n i now (inr k) = record {
    fewer = λ p. rw k.result (count_values-erase p i m.pending);
  }

  -- the calls that open a transaction
  abbrev pub opens : Call F → Bool
  opens (begins _ _ _ _ _ _ _ _ _ _) = true
  opens (receives _ _ _) = true
  opens _ = false

  call-IsFewer : (m : PairingManager F) (c : Call F) → opens c ≡ false → IsFewer m (call m c)
  unfolding call approve abort prune_expired revoke revoke_trusted revoke_grant mark_auth_failure
      mark_auth_ok
  call-IsFewer m (begins a b c d e f g h i j) o = absurd (ground arith)
  call-IsFewer m (receives a b c) o = absurd (ground arith)
  call-IsFewer m (approves i permissions now) o = record { fewer = λ p. ground arith }
  call-IsFewer m (confirms i now) o = trusting-IsFewer m _ i now (confirm_cases m i now)
  call-IsFewer m (accepts i peer grant material now) o =
      trusting-IsFewer m _ i now (accept_cases m i peer grant material now)
  call-IsFewer m (aborts i) o = record { fewer = λ p. count_values-erase p i m.pending }
  call-IsFewer m (prunes now) o = record { fewer = λ p. count_values-erase_expired p _ m.pending }
  call-IsFewer m (revokes peer) o = record { fewer = λ p. count_values-filter p _ m.pending }
  call-IsFewer m (revokes_trusted peer) o = record {
    fewer = λ p. count_values-filter p _ m.pending;
  }
  call-IsFewer m (revokes_grant peer) o = record { fewer = λ p. count_values-filter p _ m.pending }
  call-IsFewer m (fails_auth peer) o = record { fewer = λ p. ground arith }
  call-IsFewer m (passes_auth peer) o = record { fewer = λ p. omega arith }

  -- Calls other than `receive_request`, where the clock of `begin` does not go back.
  pub data Calls (m : PairingManager F) (start : F) : PairingManager F → F → Type 0 where
    here : Calls m start m start
    other_call :
        {n : PairingManager F} {now : F} (c : Call F)
        → Calls m start n now
        → opens c ≡ false
        → Calls m start (call n c) now
    begin_call :
        {n : PairingManager F} {now : F} (peer : NodeId) (secret : Option String)
        (material : Material) (direction intent new_id token : String) (t u v : F)
        → Calls m start n now
        → fl.is_finite u ≡ true
        → fl.le now u ≡ true
        → Calls m start (call n (begins peer secret material direction intent new_id token t u v)) u

  begin-IsSingle :
      (m n : PairingManager F) (now u : F)
      → (n ≡ m) ⊎ IsBegun m n u
      → fl.is_finite now ≡ true
      → fl.is_finite u ≡ true
      → fl.le now u ≡ true
      → IsSingle m now
      → IsSingle n u
  begin-IsSingle m n now u (inl e) fn fu le s = rw e (record {
    at_most_one = λ peer d t ft h. s.at_most_one peer d t ft (fl.le_trans now u t fn fu ft le h);
  })
  begin-IsSingle m n now u (inr b) fn fu le s =
      rw b.is_begun (begun-IsSingle m now u b.transaction fn fu le b.none_active s)

  Calls-finite :
      {m : PairingManager F} {start : F} {n : PairingManager F} {now : F}
      → Calls m start n now
      → fl.is_finite start ≡ true
      → fl.is_finite now ≡ true
  Calls-finite here f = f
  Calls-finite (other_call c r o) f = Calls-finite r f
  Calls-finite (begin_call peer secret material direction intent new_id token t u v r fu le) f = fu

  -- If from a finite time on at most one transaction is active for each peer and direction, this
  -- holds from the later time on after any calls of the manager other than `receive_request` and
  -- the restoring methods, where the clock of `begin` is finite and does not go back.
  pub Calls-IsSingle :
      (m : PairingManager F) (start : F) (n : PairingManager F) (now : F)
      → fl.is_finite start ≡ true
      → IsSingle m start
      → Calls m start n now
      → IsSingle n now
  unfolding call
  Calls-IsSingle m start n now f s here = s
  Calls-IsSingle m start n now f s (other_call {n = k} c r o) =
      fewer-IsSingle k n now (call-IsFewer k c o) (Calls-IsSingle m start k now f s r)
  Calls-IsSingle m start n now f s
        (begin_call {n = k} {now = before} peer secret material direction intent new_id token t u v
          r fu le) =
      begin-IsSingle k n before u
        (begin_cases k peer secret material direction intent new_id token t u v) (Calls-finite r f)
        fu le (Calls-IsSingle m start k before f s r)
