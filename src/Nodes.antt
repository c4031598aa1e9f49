-- ===== src/Nodes.antt =====
-- `NodeRegistry` of src/expra_connect/nodes/registry.py. A method that returns gives its record and
-- the registry after it; one that raises has changed nothing.
pub mod Axes
use expra_connect.Prelude.{
  String, string_eq, ◌==◌, Bool, true, false, not, ◌||◌, Option, none, some, Result, ok, err,
  key_error, permission_error, ◌>>=◌, ◌>>◌, raise_if, List, [], ◌∷◌, Dict, lookup, put, values,
  values, if◌then◌else◌,
}
use expra_connect.Identity.{NodeId, CapabilitySet}
use expra_connect.Connections.{ConnectionState, unknown_state}
use expra_connect.Cluster.Models.{ClusterRole}

pub data TrustState : Type 0 where
  discovered trusted authorized revoked : TrustState

pub data MembershipState : Type 0 where
  not_joined worker coordinator subcoordinator : MembershipState

-- `MembershipState(role.value)`: the values of the two enums are the same texts
unfoldable pub membership_of : ClusterRole → MembershipState
membership_of ClusterRole.worker = MembershipState.worker
membership_of ClusterRole.coordinator = MembershipState.coordinator
membership_of ClusterRole.subcoordinator = MembershipState.subcoordinator

pub record NodeRecord (F : Type 0) : Type 0 where
  pub node_id : NodeId
  pub trust : TrustState
  pub membership : MembershipState
  pub connection : ConnectionState F
  pub capabilities : CapabilitySet
  pub coordinator_id : Option NodeId

pub record NodeRegistry (F : Type 0) : Type 0 where
  pub local_node_id : NodeId
  pub records : Dict NodeId (NodeRecord F)

abbrev pub no_capabilities : CapabilitySet
no_capabilities = record { can_read_state = false; can_manage = false }

abbrev is_revoked : TrustState → Bool
is_revoked revoked = true
is_revoked _ = false

-- `trust in {TRUSTED, AUTHORIZED}`
abbrev is_trusted : TrustState → Bool
is_trusted trusted = true
is_trusted authorized = true
is_trusted _ = false

module _ {F : Type 0} where
  -- `NodeRecord(node_id)`
  abbrev pub new_record : NodeId → NodeRecord F
  new_record n = record {
    node_id = n;
    trust = discovered;
    membership = not_joined;
    connection = unknown_state;
    capabilities = no_capabilities;
    coordinator_id = none;
  }

  unfoldable pub init_registry : NodeId → Bool → NodeRegistry F
  init_registry n cluster_enabled = record {
    local_node_id = n;
    records =
        (
          n,
          record (new_record n) {
            trust = authorized;
            membership = if cluster_enabled then coordinator else not_joined;
          },
        )
        ∷ [];
  }

  -- `record(node_id)`
  unfoldable pub record_of : NodeRegistry F → NodeId → Option (NodeRecord F)
  record_of r n = lookup n r.records

  -- `self._records[node_id] = updated; return updated`
  abbrev pub store : NodeRegistry F → NodeId → NodeRecord F → Result (NodeRecord F × NodeRegistry F)
  store r n updated = ok (updated, record r { records = put n updated r.records })

  -- `records`
  unfoldable records : NodeRegistry F → List (NodeRecord F)
  records r = values r.records

  abbrev found : NodeId → Option (NodeRecord F) → Result (NodeRecord F)
  found n none = err (key_error n)
  found n (some a) = ok a

  -- `_require`
  unfoldable pub require : NodeRegistry F → NodeId → Result (NodeRecord F)
  require r n = found n (record_of r n)

  abbrev or_new : NodeId → Option (NodeRecord F) → NodeRecord F
  or_new n none = new_record n
  or_new n (some a) = a

  unfoldable pub observe :
      NodeRegistry F → NodeId → CapabilitySet → Result (NodeRecord F × NodeRegistry F)
  observe r n capabilities =
      if n == r.local_node_id
      then (require r n >>= λ a. ok (a, r))
      else store r n (record (or_new n (record_of r n)) { capabilities = capabilities })

  unfoldable pub promote :
      NodeRegistry F → NodeId → CapabilitySet → Result (NodeRecord F × NodeRegistry F)
  promote r n permissions = do
    current ← require r n
    raise_if (is_revoked current.trust) (permission_error "revoked node requires a fresh pairing")
    store r n (record current { trust = authorized; capabilities = permissions })

  unfoldable pub revoke : NodeRegistry F → NodeId → Result (NodeRecord F × NodeRegistry F)
  revoke r n = do current ← require r n; store r n (record current { trust = revoked })

  unfoldable pub set_connection :
      NodeRegistry F → NodeId → ConnectionState F → Result (NodeRecord F × NodeRegistry F)
  set_connection r n state = do
    current ← require r n
    store r n (record current { connection = state })

  unfoldable pub join :
      NodeRegistry F → NodeId → ClusterRole → NodeId → Result (NodeRecord F × NodeRegistry F)
  join r n role coordinator_id = do
    current ← require r n
    raise_if (not (is_trusted current.trust))
        (permission_error "untrusted node cannot join the cluster")
    store r n
        (record current { membership = membership_of role; coordinator_id = some coordinator_id })

  unfoldable pub hydrate_membership :
      NodeRegistry F → NodeId → ClusterRole → NodeId → Result (NodeRecord F × NodeRegistry F)
  hydrate_membership r n role coordinator_id = do
    current ← require r n
    store r n
        (record current { membership = membership_of role; coordinator_id = some coordinator_id })

  unfoldable pub hydrate_trust : NodeRegistry F → NodeId → Result (NodeRecord F × NodeRegistry F)
  hydrate_trust r n = do current ← require r n; store r n (record current { trust = authorized })
