-- ===== src/Gatewayd/Logs/Pruning.antt =====
-- What is left of the log when it has been pruned.
use acp_a2a_gateway.Prelude.{
  ℕ, zero, suc, ◌+◌, ◌≤◌, ◌<◌, String, ◌≡◌, refl, ap, sym, subst, ◌⊎◌, inl, inr, Bool, true, false,
  not, ◌&&◌, Bool-cases, Option, none, some, [], ◌∷◌, length, length-keep-le, All, ◌=ˢ◌, eq_refl,
  leb, ltb, if◌then◌else◌, get_or, arith,
}
use acp_a2a_gateway.Gatewayd.Logs.{
  LogFile, LogDir, Disk, total_size, remove_file, is_there, insert_by_time, sort_by_time, is_active,
  remove_oldest, delete_oldest, go_on, delete_loop,
}

is_there-insert_by_time :
    (name : String) (f : LogFile) (fs : LogDir)
    → is_there name (insert_by_time f fs) ≡ is_there name (f ∷ fs)
unfolding is_there insert_by_time
is_there-insert_by_time name f [] = refl
is_there-insert_by_time name f (g ∷ gs) = ground (arith, is_there-insert_by_time name f gs)

pub is_there-sort_by_time :
    (name : String) (fs : LogDir) → is_there name (sort_by_time fs) ≡ is_there name fs
unfolding is_there sort_by_time
is_there-sort_by_time name [] = refl
is_there-sort_by_time name (f ∷ fs) =
    ground (arith, is_there-insert_by_time name f (sort_by_time fs), is_there-sort_by_time name fs)

length-remove_file :
    (name : String) (dir : LogDir)
    → is_there name dir ≡ true
    → length (remove_file name dir) < length dir
unfolding is_there remove_file
length-remove_file name [] h = absurd (ground arith)
length-remove_file name (f ∷ fs) h =
    ground (arith, length-remove_file name fs, length-keep-le (λ g. not (g.name =ˢ name)) fs)

-- A file that no other is older than.
abbrev pub IsOldest : LogFile → LogDir → Type 0
IsOldest f dir = All (λ g. f.mtime ≤ g.mtime) dir

-- A file of the directory, as it is.
abbrev pub Has : LogFile → LogDir → Type 0
Has f [] = ⊥
Has f (g ∷ gs) = (f ≡ g) ⊎ Has f gs

-- The first of the files that are sorted, if there is one.
abbrev first_file : LogDir → Option LogFile
first_file [] = none
first_file (f ∷ fs) = some f

abbrev older : LogFile → Option LogFile → LogFile
older g none = g
older g (some k) = if ltb k.mtime g.mtime then k else g

first-insert_by_time :
    (g : LogFile) (fs : LogDir) → first_file (insert_by_time g fs) ≡ some (older g (first_file fs))
unfolding insert_by_time
first-insert_by_time g [] = refl
first-insert_by_time g (k ∷ ks) = elim (Bool-cases (ltb k.mtime g.mtime)) [
  | inl y ↦ rw y refl
  | inr n ↦ rw n refl
]

-- The first file, if there is one, is in the directory, and nothing there is older.
abbrev HasOldest : Option LogFile → LogDir → Type 0
HasOldest none dir = dir ≡ []
HasOldest (some f) dir = Has f dir × IsOldest f dir

IsOldest-le : (f g : LogFile) (dir : LogDir) → f.mtime ≤ g.mtime → IsOldest g dir → IsOldest f dir
IsOldest-le f g [] b h = tt
IsOldest-le f g (k ∷ ks) b h = (omega (arith, b, h.0), IsOldest-le f g ks b h.1)

HasOldest-older :
    (g : LogFile) (first : Option LogFile) (dir : LogDir)
    → HasOldest first dir
    → HasOldest (some (older g first)) (g ∷ dir)
HasOldest-older g none dir h = (inl refl, (omega arith, subst (IsOldest g) (sym h) tt))
HasOldest-older g (some k) dir h = elim (Bool-cases (ltb k.mtime g.mtime)) [
  | inl y ↦
      let same : older g (some k) ≡ k = rw y refl in
      subst (λ f. HasOldest (some f) (g ∷ dir)) (sym same) (inr h.0, (ground arith, h.1))
  | inr n ↦
      let same : older g (some k) ≡ g = rw n refl in
      subst (λ f. HasOldest (some f) (g ∷ dir)) (sym same)
        (inl refl, (omega arith, IsOldest-le g k dir (ground arith) h.1))
]

first-sort_by_time : (dir : LogDir) → HasOldest (first_file (sort_by_time dir)) dir
unfolding sort_by_time
first-sort_by_time [] = refl
first-sort_by_time (g ∷ gs) =
    rw (first-insert_by_time g (sort_by_time gs))
      (HasOldest-older g (first_file (sort_by_time gs)) gs (first-sort_by_time gs))

module _ (disk : Disk) (now : ℕ) (active : Option String) (limit_bytes : ℕ) where
  -- The loop stops here: one file is left at most, or the limit is kept, or an oldest file of the
  -- directory has the active name or cannot be removed.
  abbrev pub IsSettled : LogDir → Type 0
  IsSettled dir =
      (length dir ≤ 1)
      ⊎ (total_size dir ≤ limit_bytes)
      ⊎ ((f : LogFile) × Has f dir
          × IsOldest f dir
          × ((is_active active f.name ≡ true) ⊎ (disk.removes f.name ≡ false)))

  remove_one_less :
      (goes : Bool) (name : String) (dir less : LogDir)
      → is_there name dir ≡ true
      → (if goes then some (remove_file name dir) else none) ≡ some less
      → length less < length dir
  remove_one_less true name dir less t h =
      subst (λ d. length d < length dir) (ap (λ o. get_or o dir) h) (length-remove_file name dir t)
  remove_one_less false name dir less t h = absurd (ground arith)

  remove_oldest_less :
      (dir sorted less : LogDir)
      → ((name : String) → is_there name sorted ≡ is_there name dir)
      → remove_oldest disk now active dir sorted ≡ some less
      → length less < length dir
  unfolding remove_oldest is_there
  remove_oldest_less dir [] less same h = absurd (ground arith)
  remove_oldest_less dir (f ∷ fs) less same h =
      remove_one_less (not (is_active active f.name) && disk.removes f.name) f.name dir less
        (ground (arith, same f.name, eq_refl f.name)) h

  remove_oldest-none :
      (dir sorted : LogDir)
      → ((name : String) → is_there name sorted ≡ is_there name dir)
      → HasOldest (first_file sorted) dir
      → remove_oldest disk now active dir sorted ≡ none
      → IsSettled dir
  unfolding remove_oldest is_there
  remove_oldest-none dir [] same old h = inl (subst (λ d. length d ≤ 1) (sym old) (omega arith))
  remove_oldest-none dir (f ∷ fs) same old h = inr (
      inr (
        f,
        old.0,
        old.1,
        elim (Bool-cases (is_active active f.name)) [ inl y ↦ inl y | inr n ↦ inr (ground arith) ],
      ))

  delete_oldest_less :
      (dir less : LogDir)
      → delete_oldest disk now active limit_bytes dir ≡ some less
      → length less < length dir
  unfolding delete_oldest
  delete_oldest_less dir less h = elim (Bool-cases (leb (length dir) 1)) [
    | inl y ↦ absurd (ground arith)
    | inr n ↦ elim (Bool-cases (leb (total_size dir) limit_bytes)) [
      | inl y ↦ absurd (ground arith)
      | inr m ↦
          remove_oldest_less dir (sort_by_time dir) less (λ name. is_there-sort_by_time name dir)
            (rw (n, m) at h)
    ]
  ]

  delete_oldest-none :
      (dir : LogDir) → delete_oldest disk now active limit_bytes dir ≡ none → IsSettled dir
  unfolding delete_oldest
  delete_oldest-none dir h = elim (Bool-cases (leb (length dir) 1)) [
    | inl y ↦ inl (ground arith)
    | inr n ↦ elim (Bool-cases (leb (total_size dir) limit_bytes)) [
      | inl y ↦ inr (inl (ground arith))
      | inr m ↦
          remove_oldest-none dir (sort_by_time dir) (λ name. is_there-sort_by_time name dir)
            (first-sort_by_time dir) (rw (n, m) at h)
    ]
  ]

  go_on_settles :
      (rounds : ℕ) (dir : LogDir) (handled : ℕ) (less : Option LogDir)
      → delete_oldest disk now active limit_bytes dir ≡ less
      → ((fewer : LogDir)
          → length fewer < length dir
          → IsSettled (delete_loop disk now rounds active limit_bytes fewer (handled + 1)).0)
      → IsSettled
          (go_on disk now less
            (dir, handled)
            (λ fewer. delete_loop disk now rounds active limit_bytes fewer (handled + 1))).0
  unfolding go_on
  go_on_settles rounds dir handled none e next = delete_oldest-none dir e
  go_on_settles rounds dir handled (some less) e next = next less (delete_oldest_less dir less e)

  pub delete_loop_settles :
      (rounds : ℕ) (dir : LogDir) (handled : ℕ)
      → length dir ≤ rounds
      → IsSettled (delete_loop disk now rounds active limit_bytes dir handled).0
  unfolding delete_loop
  delete_loop_settles zero dir handled b = inl (omega (arith, b))
  delete_loop_settles (suc rounds) dir handled b =
      go_on_settles rounds dir handled (delete_oldest disk now active limit_bytes dir) refl
        λ fewer l. delete_loop_settles rounds fewer (handled + 1) (omega (arith, b, l))
