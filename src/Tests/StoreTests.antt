-- ===== src/Tests/StoreTests.antt =====
-- Leases and the task store.
use acp_a2a_gateway.Prelude.{
  arith, inl, inr, ◌≤◌, ◌≡◌, refl, false, some, [], ◌∷◌, lookup, external,
}
use acp_a2a_gateway.Core.Lease.{TurnLease}
use acp_a2a_gateway.Core.Lease.Exclusion.{IsValid}
use acp_a2a_gateway.Core.TaskStore.{
  TaskStore, File, unrenamed, save, load_owned, sanitize_task_id, envelope,
}
use acp_a2a_gateway.Core.TaskStore.Names.{AllPlain, NoPath, size, sanitize_task_id_safe}
use acp_a2a_gateway.Core.TaskStore.Files.{load_owned-save}
use acp_a2a_gateway.Tests.Fixtures.{alice, task}

abbrev no_leases : TurnLease
no_leases = record { locks = []; held = λ m. false; next = 0 }

no_leases-IsValid : IsValid no_leases
unfolding lookup
no_leases-IsValid = record { made = λ k m h. cc; distinct = λ j k m h g. cc; fresh = λ m h. refl }

abbrev file : File
file = record { content = envelope (some alice) task; modified = some 95 }

abbrev store : TaskStore
store = record { tasks = ("task-1", file) ∷ []; partial = [] }

load_owned-save_example :
    load_owned "task-1" (save (unrenamed (external "full")) 99 task alice store).1
    ≡ load_owned "task-1" store
load_owned-save_example = load_owned-save (unrenamed (external "full")) 99 task alice "task-1" store

t1-AllPlain : AllPlain "t1"
t1-AllPlain = (inr (inr (inl (omega arith, omega arith))), (inl (omega arith, omega arith), tt))

sanitize_task_id_safe_example :
    AllPlain (sanitize_task_id "../etc")
    × NoPath (sanitize_task_id "../etc")
    × (size (sanitize_task_id "../etc") ≤ 128)
    × (sanitize_task_id (sanitize_task_id "../etc") ≡ sanitize_task_id "../etc")
    × (sanitize_task_id "t1" ≡ "t1")
sanitize_task_id_safe_example = sanitize_task_id_safe "../etc" "t1" t1-AllPlain (omega arith)

sanitize_traversal : sanitize_task_id "../etc/passwd" ≡ "etcpasswd"
unfolding sanitize_task_id
sanitize_traversal = refl
