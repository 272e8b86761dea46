-- ===== src/Core/TaskStore/Files.antt =====
-- Saving, loading and sweeping.
use acp_a2a_gateway.Prelude.{
  ℕ, ◌+◌, ◌≡◌, refl, ◌≢◌, not, some, arith, ◌=ˢ◌, eq_iff, if◌then◌else◌, ltb, lookup, lookup-insert,
  lookup-retain, ok, err, task_not_found,
}
use acp_a2a_gateway.Protocol.A2a.{Task, TaskId}
use acp_a2a_gateway.Core.Owner.{Owner}
use acp_a2a_gateway.Core.TaskStore.{
  TaskStore, File, envelope, Fault, no_fault, unwritten, unrenamed, path_for, save, load_owned,
  is_expired, sweep_expired,
}

-- The save's outcome by its fault: done, the task and its owner are read back under every id with
-- the same file name, and tasks under other file names are read as before; failed at any point,
-- every task is read as before.
pub load_owned-save :
    (fault : Fault) (now : ℕ) (task : Task) (owner : Owner) (id : TaskId) (s : TaskStore)
    → load_owned id (save fault now task owner s).1 ≡ elim fault [
      | no_fault ↦
          if path_for task.id =ˢ path_for id
          then ok (record { task = task; owner = some owner })
          else load_owned id s
      | unwritten e ↦ load_owned id s
      | unrenamed e ↦ load_owned id s
    ]
unfolding save load_owned
load_owned-save no_fault now task owner id s = ground (
  arith,
  lookup-insert (path_for task.id) (path_for id)
      (record { content = envelope (some owner) task; modified = some now }) s.tasks,
)
load_owned-save (unwritten e) now task owner id s = refl
load_owned-save (unrenamed e) now task owner id s = refl

-- A sweep removes a task exactly when its last write is more than `ttl` ago: such a task is not
-- found afterwards, and any other, one whose last write lies ahead of the clock among them, is read
-- as before. The id must have left a character for the name of its file.
pub load_owned-sweep :
    (ttl now t : ℕ) (id : TaskId) (f : File) (s : TaskStore)
    → lookup (path_for id) s.tasks ≡ some f
    → f.modified ≡ some t
    → path_for id ≢ ""
    → load_owned id (sweep_expired ttl now s).1
      ≡ (if ltb (t + ttl) now then err (task_not_found id) else load_owned id s)
unfolding sweep_expired load_owned is_expired
load_owned-sweep ttl now t id f s e m n = ground (
  arith,
  lookup-retain (λ stem g. not (is_expired ttl now stem g)) (path_for id) s.tasks,
  eq_iff (path_for id) "",
)
