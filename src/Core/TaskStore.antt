-- ===== src/Core/TaskStore.antt =====
-- core/src/task_store.rs: one file for each task, behind an envelope that names the owner.
-- The directory is two maps: the `.json` files by their stem, and the `.json.tmp` files.
pub mod Names
pub mod Files
use Prim.Native.Char.{code}
use Prim.Native.String
use acp_a2a_gateway.Prelude.{
  ◌>>=◌, ℕ, zero, suc, ◌-◌, String, Bool, false, not, ◌&&◌, ◌||◌, Option, none, some, [], ◌==◌,
  ◌=ˢ◌, ltb, leb, if◌then◌else◌, Dict, lookup, insert, remove, retain, dropped, length, Result, ok,
  err, Error, task_not_found, task_corrupted,
}
use acp_a2a_gateway.Protocol.A2a.{Task, TaskId}
use acp_a2a_gateway.Core.Owner.{Owner}

-- c.is_ascii_alphanumeric() || c == '-' || c == '_'
abbrev pub is_safe : ℕ → Bool
is_safe c =
    (leb b'0' c && leb c b'9')
    || (leb b'A' c && leb c b'Z')
    || (leb b'a' c && leb c b'z')
    || c == b'-'
    || c == b'_'

-- chars().filter(..)
keep_safe : String → String
keep_safe String.[] = String.[]
keep_safe (String.◌∷◌ c s) =
    let rest = keep_safe s in if is_safe (code c) then String.◌∷◌ c rest else rest

-- take(n)
take_chars : ℕ → String → String
take_chars zero s = String.[]
take_chars (suc n) String.[] = String.[]
take_chars (suc n) (String.◌∷◌ c s) = String.◌∷◌ c (take_chars n s)

unfoldable pub sanitize_task_id : String → String
unfolding keep_safe take_chars
sanitize_task_id raw = take_chars 128 (keep_safe raw)

-- What serde finds in a file: an envelope, a bare task of the old format, or neither. What was
-- printed is read back as it was; serde reads a field that is there and null as one that is not,
-- which makes no difference to the values that the program prints.
pub data Content : Type 0 where
  envelope : Option Owner → Task → Content
  legacy : Task → Content
  corrupted : Content

pub record OwnedTask : Type 0 where
  pub task : Task
  pub owner : Option Owner

pub record File : Type 0 where
  pub content : Content
  -- the mtime, where the file system gives one
  pub modified : Option ℕ

pub record TaskStore : Type 0 where
  pub tasks : Dict File
  pub partial : Dict Content

pub empty : TaskStore
empty = record { tasks = []; partial = [] }

-- Where an I/O error stops a save: the directory cannot be made or the temporary file not
-- written, or the rename fails.
pub data Fault : Type 0 where
  no_fault : Fault
  unwritten unrenamed : Error → Fault

-- The stem of the task's file; `base_dir` is fixed.
unfoldable pub path_for : TaskId → String
path_for id = sanitize_task_id id

unfoldable pub save : Fault → ℕ → Task → Owner → TaskStore → Result (Unit {0}) × TaskStore
save (unwritten e) now task owner s = (err e, s)
save (unrenamed e) now task owner s =
    (err e, record s { partial = insert (path_for task.id) (envelope (some owner) task) s.partial })
save no_fault now task owner s = (
  ok tt,
  record {
    tasks =
        insert (path_for task.id)
          (record { content = envelope (some owner) task; modified = some now }) s.tasks;
    partial = remove (path_for task.id) s.partial;
  },
)

parse : TaskId → Content → Result OwnedTask
parse id (envelope owner task) = ok (record { task = task; owner = owner })
parse id (legacy task) = ok (record { task = task; owner = none })
parse id corrupted = err (task_corrupted id)

unfoldable pub load_owned : TaskId → TaskStore → Result OwnedTask
unfolding parse
load_owned id s = elim (lookup (path_for id) s.tasks) [
  | none ↦ err (task_not_found id)
  | some f ↦ parse id f.content
]

unfoldable pub load : TaskId → TaskStore → Result Task
load id s = do stored ← load_owned id s; ok stored.task

unfoldable pub delete : TaskId → TaskStore → TaskStore
delete id s = record s { tasks = remove (path_for id) s.tasks }

-- A file is removed if it has the extension, an mtime that does not lie ahead, and is older than
-- `ttl`. (The file with an empty stem, `.json`, has no extension.)
unfoldable pub is_expired : (ttl now : ℕ) → String → File → Bool
is_expired ttl now stem f =
    not (stem =ˢ "") && elim f.modified [ none ↦ false | some t ↦ leb t now && ltb ttl (now - t) ]

-- The removals succeed; the number of files removed comes back.
unfoldable pub sweep_expired : (ttl now : ℕ) → TaskStore → ℕ × TaskStore
sweep_expired ttl now s = (
  length (dropped (λ stem f. not (is_expired ttl now stem f)) s.tasks),
  record s { tasks = retain (λ stem f. not (is_expired ttl now stem f)) s.tasks },
)
