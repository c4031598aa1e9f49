-- ===== src/Cluster/Lease/Rejoin.antt =====
-- Rejoining as a Worker, of src/expra_connect/cluster/roles.py.
use expra_connect.Prelude.{
  ◌≡◌, refl, ℕ_eq, false, Option, none, some, arith, Bool-cases, inl, inr, Error, fencing_error,
  Ensures, raise_if-Ensures,
}
use expra_connect.Identity.{NodeId}
use expra_connect.Cluster.Models.{RoleAssignment, worker_only}
use expra_connect.Cluster.RoleState.{RoleState, assignment_for}
use expra_connect.Cluster.RoleState.Valid.{IsValid}
use expra_connect.Cluster.RoleState.Keeps.{current_facts, replace-Ensures}
use expra_connect.Cluster.Lease.{
  rejoin_as_worker, rejoined, other_current_epoch, EpochClaim, natural, malformed,
}

-- A FencingError, the only exception of `rejoin_as_worker` on a valid state.
abbrev pub IsFencing : Error → Type 0
IsFencing (fencing_error m) = Unit
IsFencing e = ⊥

-- Rejoining: an epoch that is not the state's own is refused, else a Coordinator of that id is a
-- plain Worker afterwards and all else stays.
module _ {F : Type 0} (s : RoleState F) (v : IsValid s) where
  rejoined-Keeps :
      (node_id : NodeId) (o : Option RoleAssignment)
      → assignment_for s node_id ≡ o
      → Ensures IsFencing IsValid (rejoined s o)
  rejoined-Keeps node_id none e = v
  rejoined-Keeps node_id (some a) e = elim (Bool-cases a.roles.coordinator) [
    | inr plain ↦ rw plain v
    | inl coord ↦
        let (found, wf, at_id) = current_facts s v node_id a e in
        let x : RoleAssignment = record a {
          roles = worker_only;
          paused = false;
          has_active_job = false;
        } in
        rw coord (
          replace-Ensures s node_id a x v found at_id (ground arith) (ground arith) (ground arith)
            IsFencing (ground arith) (ground arith))
  ]

  -- On a valid role state, `rejoin_as_worker` gives a valid state or raises a FencingError; no
  -- other exception is possible.
  pub rejoin_as_worker-Keeps :
      (node_id : NodeId) (current_epoch : EpochClaim)
      → Ensures IsFencing IsValid (rejoin_as_worker s node_id current_epoch)
  unfolding rejoin_as_worker
  rejoin_as_worker-Keeps node_id malformed = tt
  rejoin_as_worker-Keeps node_id (natural n) =
      raise_if-Ensures IsFencing IsValid (other_current_epoch s.epoch n) _ _ tt
        λ _. rejoined-Keeps node_id (assignment_for s node_id) refl
