-- ===== src/Identity.antt =====
-- `NodeId` of src/expra_connect/identity/__init__.py and the permission vocabulary of
-- src/expra_connect/data/permissions.py.
use Prim.Native.String.count
use Prim.Native.String as Str
use expra_connect.Prelude.{
  String, string_eq, ◌==◌, ◌||◌, Bool, not, ltb, Result, value_error, raise_if, ◌>>◌, ok,
}

-- A frozen dataclass around one string, compared by it.
abbrev pub NodeId : Type 0
NodeId = String

-- `NodeId(value)`, for a value that is a string.
unfoldable pub init_node_id : String → Result NodeId
init_node_id value = do
  raise_if (value == "" || value == "local" || ltb 128 (Str.count value))
      (value_error "invalid node id")
  ok value

-- A `frozenset[NodePermission]`: which of the five permissions it holds.
pub record PermissionSet : Type 0 where
  pub read_state : Bool
  pub remote_management : Bool
  pub process_termination : Bool
  pub process_force_termination : Bool
  pub cleanup : Bool

pub data NodePermission : Type 0 where
  read_state remote_management process_termination : NodePermission
  process_force_termination cleanup : NodePermission

-- `permission in permissions`
unfoldable pub permits : PermissionSet → NodePermission → Bool
permits s read_state = s.read_state
permits s remote_management = s.remote_management
permits s process_termination = s.process_termination
permits s process_force_termination = s.process_force_termination
permits s cleanup = s.cleanup

-- `not permissions`
unfoldable pub is_empty : PermissionSet → Bool
is_empty s = not (
    s.read_state || s.remote_management || s.process_termination || s.process_force_termination
    || s.cleanup)

-- A `frozenset[NodeCapability]`.
pub record CapabilitySet : Type 0 where
  pub can_read_state : Bool
  pub can_manage : Bool
