-- ===== src/Nodes/Axes.antt =====
-- The calls of the registry of src/expra_connect/nodes/registry.py as events.
use expra_connect.Prelude.{
  ◌≡◌, ◌≢◌, string_eq, ◌==◌, Bool, false, Option, none, some, Result, ok, err, permission_error,
  List, [], ◌∷◌, lookup-put, arith, All,
}
use text.Mathlib.TextEquality.{eq_iff}
use expra_connect.Identity.{NodeId, CapabilitySet}
use expra_connect.Connections.{ConnectionState}
use expra_connect.Cluster.Models.{ClusterRole}
use expra_connect.Nodes
use expra_connect.Nodes.{
  NodeRecord, NodeRegistry, TrustState, authorized, revoked, record_of, require, membership_of,
}

-- A call of a method of the registry.
pub data Event (F : Type 0) : Type 0 where
  observe promote : NodeId → CapabilitySet → Event F
  revoke hydrate_trust : NodeId → Event F
  set_connection : NodeId → ConnectionState F → Event F
  join hydrate_membership : NodeId → ClusterRole → NodeId → Event F

module _ {F : Type 0} where
  pub call : NodeRegistry F → Event F → Result (NodeRecord F × NodeRegistry F)
  call r (observe n c) = Nodes.observe r n c
  call r (promote n c) = Nodes.promote r n c
  call r (revoke n) = Nodes.revoke r n
  call r (hydrate_trust n) = Nodes.hydrate_trust r n
  call r (set_connection n s) = Nodes.set_connection r n s
  call r (join n role c) = Nodes.join r n role c
  call r (hydrate_membership n role c) = Nodes.hydrate_membership r n role c

  abbrev pub after : NodeRegistry F → Result (NodeRecord F × NodeRegistry F) → NodeRegistry F
  after r (ok (a, r')) = r'
  after r (err e) = r

  -- a history of calls; one that raises changes nothing
  pub run : NodeRegistry F → List (Event F) → NodeRegistry F
  run r [] = r
  run r (e ∷ events) = run (after r (call r e)) events

  -- the node that an event is about
  abbrev pub subject : Event F → NodeId
  subject (observe n c) = n
  subject (promote n c) = n
  subject (revoke n) = n
  subject (hydrate_trust n) = n
  subject (set_connection n s) = n
  subject (join n role c) = n
  subject (hydrate_membership n role c) = n

  -- A call of a method of the registry, whether it returns or raises, changes no record but that of
  -- the node it is about.
  pub call_others :
      (r : NodeRegistry F) (e : Event F) (m : NodeId)
      → subject e ≢ m
      → record_of (after r (call r e)) m ≡ record_of r m
  unfolding call record_of require Nodes.observe Nodes.promote Nodes.revoke Nodes.hydrate_trust
      Nodes.set_connection Nodes.join Nodes.hydrate_membership
  call_others r (observe n c) m h = grind (arith, lookup-put, eq_iff n m)
  call_others r (promote n c) m h = grind (arith, lookup-put, eq_iff n m)
  call_others r (revoke n) m h = grind (arith, lookup-put, eq_iff n m)
  call_others r (hydrate_trust n) m h = grind (arith, lookup-put, eq_iff n m)
  call_others r (set_connection n s) m h = grind (arith, lookup-put, eq_iff n m)
  call_others r (join n role c) m h = grind (arith, lookup-put, eq_iff n m)
  call_others r (hydrate_membership n role c) m h = grind (arith, lookup-put, eq_iff n m)

  -- the trust that a node has, if it has a record
  abbrev pub trust_of : NodeRegistry F → NodeId → Option TrustState
  trust_of r n = elim (record_of r n) [ none ↦ none | some a ↦ some a.trust ]

  -- an event that does not restore the trust of `n`
  abbrev pub restores : NodeId → Event F → Bool
  restores n (hydrate_trust m) = m == n
  restores n _ = false

  call_tombstone :
      (r : NodeRegistry F) (e : Event F) (n : NodeId)
      → restores n e ≡ false
      → trust_of r n ≡ some revoked
      → trust_of (after r (call r e)) n ≡ some revoked
  unfolding call record_of require Nodes.observe Nodes.promote Nodes.revoke Nodes.hydrate_trust
      Nodes.set_connection Nodes.join Nodes.hydrate_membership
  call_tombstone r (observe m c) n h k = grind (arith, lookup-put, eq_iff m n)
  call_tombstone r (promote m c) n h k = grind (arith, lookup-put, eq_iff m n)
  call_tombstone r (revoke m) n h k = grind (arith, lookup-put, eq_iff m n)
  call_tombstone r (hydrate_trust m) n h k = grind (arith, lookup-put, eq_iff m n)
  call_tombstone r (set_connection m s) n h k = grind (arith, lookup-put, eq_iff m n)
  call_tombstone r (join m role c) n h k = grind (arith, lookup-put, eq_iff m n)
  call_tombstone r (hydrate_membership m role c) n h k = grind (arith, lookup-put, eq_iff m n)

  -- A node that is revoked stays revoked through any calls of the registry that do not hydrate its
  -- trust.
  pub revoked_stays :
      (r : NodeRegistry F) (events : List (Event F)) (n : NodeId)
      → All (λ e. restores n e ≡ false) events
      → trust_of r n ≡ some revoked
      → trust_of (run r events) n ≡ some revoked
  unfolding run
  revoked_stays r [] n h k = k
  revoked_stays r (e ∷ events) n h k =
      revoked_stays (after r (call r e)) events n h.1 (call_tombstone r e n h.0 k)

  -- A node that is revoked can neither be promoted nor join: both raise the PermissionError of
  -- their kind.
  pub revoked_refused :
      (r : NodeRegistry F) (n : NodeId) (permissions : CapabilitySet) (role : ClusterRole)
      (c : NodeId)
      → trust_of r n ≡ some revoked
      → (Nodes.promote r n permissions
          ≡ err (permission_error "revoked node requires a fresh pairing"))
        × (Nodes.join r n role c ≡ err (permission_error "untrusted node cannot join the cluster"))
  unfolding Nodes.promote Nodes.join require
  revoked_refused r n permissions role c h = (ground arith, ground arith)

  -- For a node with a record, `hydrate_trust` authorises the node and leaves its membership,
  -- connection, capabilities and coordinator as they were.
  pub hydrate_trust_axes :
      (r : NodeRegistry F) (n : NodeId) (a : NodeRecord F)
      → record_of r n ≡ some a
      → record_of (after r (Nodes.hydrate_trust r n)) n ≡ some (record a { trust = authorized })
  unfolding Nodes.hydrate_trust require record_of
  hydrate_trust_axes r n a h = grind (arith, lookup-put, eq_iff n n)
