-- ===== src/Cluster/Invites/Admission.antt =====
-- Consuming invites of src/expra_connect/cluster/operations.py, over sequences of calls.
use expra_connect.Prelude.{◌≡◌, String, string_eq, List, Bool, Result, ok, Floats}
use expra_connect.Identity.{NodeId}
use expra_connect.Cluster.Models.{ClusterRole, InviteRecord}
use expra_connect.Cluster.Operations.{Cluster, assign, revoke, set_online}
use expra_connect.Cluster.Persisted.{by_hash}
use expra_connect.Cluster.Invites.{consume_invite, create_invite, join}
use expra_connect.Cluster.Invites.Spent.{IsSpent}

module _ {F : Type 0} ⦃fl : Floats F⦄ (hash_invite : String → String) where
  -- A call of a method that changes a cluster, whether it raises or not.
  pub data Step (c d : Cluster F) : Type 0 where
    creates :
        (token : String) (n : NodeId) (now : F) (i : InviteRecord F)
        → create_invite hash_invite token c n now ≡ ok (i, d)
        → Step c d
    consumes :
        (token : String) (n : NodeId) (current clock : F) (allow_retry : Bool)
        (r : Result (InviteRecord F))
        → consume_invite hash_invite c token n current clock allow_retry ≡ (r, d)
        → Step c d
    assigns : (n : NodeId) (role : ClusterRole) (now : F) → assign c n role now ≡ ok d → Step c d
    revokes : (n : NodeId) → revoke c n ≡ ok d → Step c d
    connects : (n : NodeId) (online : Bool) → d ≡ set_online c n online → Step c d
    -- the cluster joins another one
    joins :
        (token : String) (coordinator after : Cluster F) (paired : Bool) (current clock : F)
        (r : Result (Unit {0}))
        → join hash_invite c token coordinator paired current clock ≡ (r, d, after)
        → Step c d
    -- another cluster joins this one
    is_joined :
        (token : String) (node after : Cluster F) (paired : Bool) (current clock : F)
        (r : Result (Unit {0}))
        → join hash_invite node token c paired current clock ≡ (r, after, d)
        → Step c d
    restores :
        (invites : List (InviteRecord F))
        → d ≡ record c { invites = by_hash invites c.invites }
        → Step c d

  pub data Steps (c : Cluster F) : Cluster F → Type 0 where
    here : Steps c c
    next : {d e : Cluster F} → Steps c d → Step d e → Steps c e

  -- What a join leaves of the used invites, on both sides.
  record KeepsBoth (c k : Cluster F) (out : Result (Unit {0}) × Cluster F × Cluster F)
      : Type 0 where
    of_node : (g : String) → IsSpent c g → IsSpent out.1 g
    of_coordinator : (g : String) → IsSpent k g → IsSpent out.2 g
