-- ===== src/Gatewayd/Logs.antt =====
-- gatewayd/src/main.rs: the upkeep of the directory of the log. The directory is the list of its
-- files whose metadata can be read.
pub mod Pruning
pub mod Active
pub mod Survival
pub mod Names
use Prim.Native.Char.{code}
use Prim.Native.String
use acp_a2a_gateway.Prelude.{
  ℕ, zero, suc, ◌+◌, ◌*◌, ◌/◌, String, Bool, true, false, ◌&&◌, not, Option, none, some, List, [],
  ◌∷◌, length, keep, ◌==◌, ◌=ˢ◌, leb, ltb, if◌then◌else◌,
}

pub record LogFile : Type 0 where
  pub name : String
  pub mtime : ℕ
  pub size : ℕ

abbrev pub LogDir : Type 0
LogDir = List LogFile

unfoldable pub total_size : LogDir → ℕ
total_size [] = 0
total_size (f ∷ fs) = f.size + total_size fs

unfoldable pub dir_size_mb : LogDir → ℕ
unfolding total_size
dir_size_mb dir = total_size dir / (1024 * 1024)

unfoldable pub largest_size : LogDir → ℕ
largest_size [] = 0
largest_size (f ∷ fs) = let rest = largest_size fs in if ltb rest f.size then f.size else rest

unfoldable pub largest_file_size_mb : LogDir → ℕ
unfolding largest_size
largest_file_size_mb dir = largest_size dir / (1024 * 1024)

-- A character in front of a text whose last dot, if it has one, is found.
unfoldable pub in_front :
    Prim.Native.Char.Char → String → Option (String × String) → Option (String × String)
in_front c s none = if code c == b'.' then some ("", s) else none
in_front c s (some (stem, ext)) = some (String.◌∷◌ c stem, ext)

-- What lies around the last dot.
unfoldable pub split_dot : String → Option (String × String)
unfolding in_front
split_dot String.[] = none
split_dot (String.◌∷◌ c s) = in_front c s (split_dot s)

-- A name that begins with its last dot has no extension.
unfoldable pub stem_of : String → Option (String × String) → String
stem_of name none = name
stem_of name (some (stem, ext)) = if stem =ˢ "" then name else stem

unfoldable pub extension_of : Option (String × String) → Option String
extension_of none = none
extension_of (some (stem, ext)) = if stem =ˢ "" then none else some ext

-- path.with_extension("log.gz")
unfoldable pub gz_path : String → String
unfolding split_dot stem_of
gz_path name = String.◌++◌ (stem_of name (split_dot name)) ".log.gz"

unfoldable pub is_gz : String → Bool
unfolding split_dot extension_of
is_gz name = elim (extension_of (split_dot name)) [ none ↦ false | some ext ↦ ext =ˢ "gz" ]

unfoldable pub remove_file : String → LogDir → LogDir
remove_file name dir = keep (λ f. not (f.name =ˢ name)) dir

unfoldable pub is_there : String → LogDir → Bool
is_there name [] = false
is_there name (f ∷ fs) = let rest = is_there name fs in if f.name =ˢ name then true else rest

-- The file system: what a file's contents come to when they are compressed and written, if that
-- works, and whether a file can be removed.
pub record Disk : Type 0 where
  pub compressed : String → Option ℕ
  pub removes : String → Bool

-- A write in place of what had the name.
unfoldable pub write_file : (now : ℕ) → String → ℕ → LogDir → LogDir
unfolding remove_file
write_file now name size dir =
    (record { name = name; mtime = now; size = size }) ∷ remove_file name dir

insert_by_time : LogFile → LogDir → LogDir
insert_by_time f [] = f ∷ []
insert_by_time f (g ∷ gs) =
    let rest = insert_by_time f gs in if ltb g.mtime f.mtime then g ∷ rest else f ∷ g ∷ gs

-- sort_by_key(|(_, mtime, _)| *mtime), which is stable
unfoldable pub sort_by_time : LogDir → LogDir
unfolding insert_by_time
sort_by_time [] = []
sort_by_time (f ∷ fs) = insert_by_time f (sort_by_time fs)

unfoldable pub last_name : LogDir → Option String
last_name [] = none
last_name (f ∷ []) = some f.name
last_name (f ∷ g ∷ gs) = last_name (g ∷ gs)

unfoldable pub is_active : Option String → String → Bool
is_active none name = false
is_active (some active) name = name =ˢ active

module _ (disk : Disk) (now : ℕ) where
  unfoldable pub finish_gzip : String → Option ℕ → LogDir → Bool × LogDir
  unfolding gz_path write_file remove_file
  finish_gzip name none dir = (false, dir)
  finish_gzip name (some size) dir =
      let written = write_file now (gz_path name) size dir in
      if disk.removes name then (true, remove_file name written) else (false, written)

  -- A file that is not there cannot be read.
  unfoldable pub gzip_file : String → LogDir → Bool × LogDir
  unfolding is_there finish_gzip
  gzip_file name dir =
      if is_there name dir then finish_gzip name (disk.compressed name) dir else (false, dir)

  unfoldable pub is_rotated : Option String → String → Bool
  unfolding is_active is_gz
  is_rotated active name = not (is_active active name) && not (is_gz name)

  unfoldable pub add_handled : Bool → ℕ → ℕ
  add_handled true n = n + 1
  add_handled false n = n

  -- Over the files as they were listed; `handled` counts those that went well.
  unfoldable pub compress_rotated :
      (active : Option String) → (files : LogDir) → LogDir → ℕ → LogDir × ℕ
  unfolding is_rotated gzip_file add_handled
  compress_rotated active [] dir handled = (dir, handled)
  compress_rotated active (f ∷ fs) dir handled =
      let done = gzip_file f.name dir in
      if is_rotated active f.name
      then compress_rotated active fs done.1 (add_handled done.0 handled)
      else compress_rotated active fs dir handled

  unfoldable pub remove_oldest : Option String → LogDir → (sorted : LogDir) → Option LogDir
  unfolding is_active remove_file
  remove_oldest active dir [] = none
  remove_oldest active dir (oldest ∷ sorted) =
      if not (is_active active oldest.name) && disk.removes oldest.name
      then some (remove_file oldest.name dir)
      else none

  -- One round of the loop that deletes, unless it breaks.
  unfoldable pub delete_oldest :
      (active : Option String) → (limit_bytes : ℕ) → LogDir → Option LogDir
  unfolding total_size sort_by_time remove_oldest
  delete_oldest active limit_bytes dir =
      if leb (length dir) 1
      then none
      else if leb (total_size dir) limit_bytes
      then none
      else remove_oldest active dir (sort_by_time dir)

  unfoldable pub go_on :
      Option LogDir → (stopped : LogDir × ℕ) → (next : LogDir → LogDir × ℕ) → LogDir × ℕ
  go_on none stopped next = stopped
  go_on (some less) stopped next = next less

  unfoldable pub delete_loop :
      (rounds : ℕ) → (active : Option String) → (limit_bytes : ℕ) → LogDir → ℕ → LogDir × ℕ
  unfolding delete_oldest go_on
  delete_loop zero active limit_bytes dir handled = (dir, handled)
  delete_loop (suc rounds) active limit_bytes dir handled =
      go_on (delete_oldest active limit_bytes dir) (dir, handled)
        λ less. delete_loop rounds active limit_bytes less (handled + 1)

  unfoldable pub compress_first :
      (compress : Bool) → (active : Option String) → (files : LogDir) → LogDir → LogDir × ℕ
  unfolding compress_rotated
  compress_first true active files dir = compress_rotated active files dir 0
  compress_first false active files dir = (dir, 0)

  -- The directory and the number of files handled. Each round removes a file.
  unfoldable pub prune_log_dir : (limit_mb : ℕ) → (compress : Bool) → LogDir → LogDir × ℕ
  unfolding sort_by_time last_name compress_first delete_loop
  prune_log_dir limit_mb compress dir =
      let active = last_name (sort_by_time dir) in
      let packed = compress_first compress active (sort_by_time dir) dir in
      if limit_mb == 0
      then (dir, 0)
      else if leb (length dir) 0
      then (dir, 0)
      else delete_loop (length packed.0) active (limit_mb * 1024 * 1024) packed.0 packed.1
