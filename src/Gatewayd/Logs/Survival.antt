-- ===== src/Gatewayd/Logs/Survival.antt =====
-- gatewayd/src/main.rs: what outlives the upkeep of the log.
use acp_a2a_gateway.Prelude.{
  ℕ, zero, suc, ◌+◌, String, ◌≡◌, refl, ap, subst, inl, inr, Bool, true, false, not, ◌&&◌,
  Bool-cases, Option, none, some, [], ◌∷◌, length, ◌=ˢ◌, leb, if◌then◌else◌, get_or, arith,
}
use acp_a2a_gateway.Gatewayd.Logs.{
  LogDir, Disk, gz_path, total_size, remove_file, write_file, is_there, sort_by_time, is_active,
  finish_gzip, gzip_file, is_rotated, compress_rotated, compress_first, remove_oldest,
  delete_oldest, go_on, delete_loop,
}

-- A property of the directory that outlives the removal of any other file, and every file that is
-- compressed.
module _ (disk : Disk) (now : ℕ) (active : String) (P : LogDir → Type 0)
    (removed : (name : String) (dir : LogDir)
      → (name =ˢ active) ≡ false
      → P dir
      → P (remove_file name dir))
    (written : (name : String) (size : ℕ) (dir : LogDir)
      → P dir
      → P (write_file now (gz_path name) size dir)) where
  finish_gzip-keeps :
      (name : String) (size : Option ℕ) (dir : LogDir)
      → (name =ˢ active) ≡ false
      → P dir
      → P (finish_gzip disk now name size dir).1
  unfolding finish_gzip
  finish_gzip-keeps name none dir n h = h
  finish_gzip-keeps name (some size) dir n h =
      let after = write_file now (gz_path name) size dir in
      elim (Bool-cases (disk.removes name)) [
        | inl y ↦ rw y (removed name after n (written name size dir h))
        | inr m ↦ rw m (written name size dir h)
      ]

  gzip_file-keeps :
      (name : String) (dir : LogDir)
      → (name =ˢ active) ≡ false
      → P dir
      → P (gzip_file disk now name dir).1
  unfolding gzip_file
  gzip_file-keeps name dir n h = elim (Bool-cases (is_there name dir)) [
    | inl y ↦ rw y (finish_gzip-keeps name (disk.compressed name) dir n h)
    | inr m ↦ rw m h
  ]

  rotated_differs :
      (name : String) → is_rotated disk now (some active) name ≡ true → (name =ˢ active) ≡ false
  unfolding is_rotated is_active
  rotated_differs name r = ground arith

  compress_rotated-keeps :
      (files dir : LogDir) (handled : ℕ)
      → P dir
      → P (compress_rotated disk now (some active) files dir handled).0
  unfolding compress_rotated
  compress_rotated-keeps [] dir handled h = h
  compress_rotated-keeps (f ∷ fs) dir handled h =
      elim (Bool-cases (is_rotated disk now (some active) f.name)) [
        | inl y ↦ rw y (
            compress_rotated-keeps fs _ _ (gzip_file-keeps f.name dir (rotated_differs f.name y) h))
        | inr m ↦ rw m (compress_rotated-keeps fs dir handled h)
      ]

  remove_one-keeps :
      (goes : Bool) (name : String) (dir less : LogDir)
      → P dir
      → (goes ≡ true → (name =ˢ active) ≡ false)
      → (if goes then some (remove_file name dir) else none) ≡ some less
      → P less
  remove_one-keeps true name dir less h n e =
      subst P (ap (λ o. get_or o dir) e) (removed name dir (n refl) h)
  remove_one-keeps false name dir less h n e = absurd (ground arith)

  remove_oldest-keeps :
      (dir sorted less : LogDir)
      → P dir
      → remove_oldest disk now (some active) dir sorted ≡ some less
      → P less
  unfolding remove_oldest is_active
  remove_oldest-keeps dir [] less h e = absurd (ground arith)
  remove_oldest-keeps dir (f ∷ fs) less h e =
      remove_one-keeps (not (is_active (some active) f.name) && disk.removes f.name) f.name dir less
        h (λ g. ground arith) e

  delete_oldest-keeps :
      (limit_bytes : ℕ) (dir less : LogDir)
      → P dir
      → delete_oldest disk now (some active) limit_bytes dir ≡ some less
      → P less
  unfolding delete_oldest
  delete_oldest-keeps limit_bytes dir less h e = elim (Bool-cases (leb (length dir) 1)) [
    | inl y ↦ absurd (ground arith)
    | inr n ↦ elim (Bool-cases (leb (total_size dir) limit_bytes)) [
      | inl y ↦ absurd (ground arith)
      | inr m ↦ remove_oldest-keeps dir (sort_by_time dir) less h (rw (n, m) at e)
    ]
  ]

  go_on-keeps :
      (rounds limit_bytes : ℕ) (dir : LogDir) (handled : ℕ) (less : Option LogDir)
      → P dir
      → delete_oldest disk now (some active) limit_bytes dir ≡ less
      → ((fewer : LogDir)
          → P fewer
          → P (delete_loop disk now rounds (some active) limit_bytes fewer (handled + 1)).0)
      → P
          (go_on disk now less
            (dir, handled)
            (λ fewer. delete_loop disk now rounds (some active) limit_bytes fewer (handled + 1))).0
  unfolding go_on
  go_on-keeps rounds limit_bytes dir handled none h e next = h
  go_on-keeps rounds limit_bytes dir handled (some less) h e next =
      next less (delete_oldest-keeps limit_bytes dir less h e)

  delete_loop-keeps :
      (rounds limit_bytes : ℕ) (dir : LogDir) (handled : ℕ)
      → P dir
      → P (delete_loop disk now rounds (some active) limit_bytes dir handled).0
  unfolding delete_loop
  delete_loop-keeps zero limit_bytes dir handled h = h
  delete_loop-keeps (suc rounds) limit_bytes dir handled h =
      go_on-keeps rounds limit_bytes dir handled _ h refl
        λ fewer k. delete_loop-keeps rounds limit_bytes fewer (handled + 1) k

  compress_first-keeps :
      (compress : Bool) (files dir : LogDir)
      → P dir
      → P (compress_first disk now compress (some active) files dir).0
  unfolding compress_first
  compress_first-keeps true files dir h = compress_rotated-keeps files dir 0 h
  compress_first-keeps false files dir h = h

  pub pruned-keeps :
      (rounds limit_bytes : ℕ) (compress : Bool) (files dir : LogDir) (handled : ℕ)
      → P dir
      → P
          (delete_loop disk now rounds
            (some active)
            limit_bytes
            (compress_first disk now compress (some active) files dir).0
            handled).0
  pruned-keeps rounds limit_bytes compress files dir handled h =
      delete_loop-keeps rounds limit_bytes
        (compress_first disk now compress (some active) files dir).0 handled
        (compress_first-keeps compress files dir h)
