-- ===== src/Gatewayd/Logs/Names.antt =====
-- The name of a compressed log.
use Prim.Native.Char.{code}
use Prim.Native.String
use text.Mathlib.TextLemmas.{nil-append, cons-append}
use acp_a2a_gateway.Prelude.{
  ℕ, String, ◌≡◌, ◌≢◌, refl, ap, ◌∙◌, sym, inl, inr, Bool, true, not, ◌&&◌, Bool-cases, none, some,
  ◌∷◌, ◌==◌, ◌=ˢ◌, eq_iff, eq_refl, arith,
}
use acp_a2a_gateway.Gatewayd.Logs.{
  LogFile, LogDir, Disk, in_front, split_dot, stem_of, gz_path, remove_file, write_file,
  finish_gzip,
}

abbrev has_no_dot : String → Bool
has_no_dot String.[] = true
has_no_dot (String.◌∷◌ c s) = not (code c == b'.') && has_no_dot s

split_dot-none : (s : String) → has_no_dot s ≡ true → split_dot s ≡ none
unfolding split_dot in_front
split_dot-none String.[] h = refl
split_dot-none (String.◌∷◌ c s) h =
    let rest : has_no_dot s ≡ true = ground arith in rw (split_dot-none s rest) (ground arith)

dot_front : (rest : String) → String.◌++◌ "." rest ≡ String.◌∷◌ "." rest
dot_front rest = cons-append "." "" rest ∙ ap (String.◌∷◌ ".") (nil-append rest)

split_dot-append :
    (stem ext : String)
    → has_no_dot ext ≡ true
    → split_dot (String.◌++◌ stem (String.◌++◌ "." ext)) ≡ some (stem, ext)
unfolding split_dot in_front
split_dot-append String.[] ext h =
    ap split_dot (nil-append (String.◌++◌ "." ext) ∙ dot_front ext)
    ∙ ap (in_front "." ext) (split_dot-none ext h)
split_dot-append (String.◌∷◌ c stem) ext h =
    ap split_dot (cons-append c stem (String.◌++◌ "." ext))
    ∙ ap (in_front c (String.◌++◌ stem (String.◌++◌ "." ext))) (split_dot-append stem ext h)

gz_path-append :
    (stem ext : String)
    → stem ≢ ""
    → has_no_dot ext ≡ true
    → gz_path (String.◌++◌ stem (String.◌++◌ "." ext)) ≡ String.◌++◌ stem ".log.gz"
unfolding gz_path stem_of
gz_path-append stem ext n h = elim (Bool-cases (stem =ˢ "")) [
  | inl y ↦ absurd (n ((eq_iff stem "").0 y))
  | inr m ↦ rw (split_dot-append stem ext h, m) refl
]

remove_front :
    (first name : String) (f : LogFile) (dir : LogDir)
    → f.name ≡ name
    → remove_file name (remove_file first (f ∷ dir)) ≡ remove_file name (remove_file first dir)
unfolding remove_file
remove_front first name f dir n = elim (Bool-cases (f.name =ˢ first)) [
  | inl y ↦ rw y refl
  | inr m ↦ rw (m, n, eq_refl name) refl
]

module _ (disk : Disk) (now : ℕ) where
  finish_gzip_same :
      (name : String) (size : ℕ) (dir dir' : LogDir)
      → remove_file (gz_path name) dir ≡ remove_file (gz_path name) dir'
      → (finish_gzip disk now name (some size) dir).1
        ≡ (finish_gzip disk now name (some size) dir').1
  unfolding finish_gzip write_file
  finish_gzip_same name size dir dir' h = elim (Bool-cases (disk.removes name)) [
    | inl y ↦ rw (y, h) refl
    | inr m ↦ rw (m, h) refl
  ]

  finish_gzip_front :
      (name gz : String) (size : ℕ) (dir : LogDir)
      → disk.removes name ≡ true
      → gz_path name ≡ gz
      → remove_file gz (finish_gzip disk now name (some size) dir).1
        ≡ remove_file gz (remove_file name (remove_file (gz_path name) dir))
  unfolding finish_gzip write_file
  finish_gzip_front name gz size dir r g = rw r (remove_front name gz _ _ g)

-- Two logs whose names differ behind their last dot only, as the logs of two days do, are
-- compressed into one file of one name: when both have been, the directory is the same whatever
-- the first one came to, which is lost.
pub second_log_overwrites :
    (disk : Disk) (now : ℕ) (stem day day' : String) (size other size' : ℕ) (dir : LogDir)
    → stem ≢ ""
    → has_no_dot day ≡ true
    → has_no_dot day' ≡ true
    → disk.removes (String.◌++◌ stem (String.◌++◌ "." day)) ≡ true
    → let first = String.◌++◌ stem (String.◌++◌ "." day) in
      let second = String.◌++◌ stem (String.◌++◌ "." day') in
      (gz_path first ≡ gz_path second)
      × ((finish_gzip disk now second (some size') (finish_gzip disk now first (some size) dir).1).1
          ≡ (finish_gzip disk now second
              (some size')
              (finish_gzip disk now first (some other) dir).1).1)
second_log_overwrites disk now stem day day' size other size' dir n h h' r = (
  gz_path-append stem day n h ∙ sym (gz_path-append stem day' n h'),
  finish_gzip_same disk now (String.◌++◌ stem (String.◌++◌ "." day')) size' _ _ (
      finish_gzip_front disk now (String.◌++◌ stem (String.◌++◌ "." day)) _ size dir r
        (gz_path-append stem day n h ∙ sym (gz_path-append stem day' n h'))
      ∙ sym (
          finish_gzip_front disk now (String.◌++◌ stem (String.◌++◌ "." day)) _ other dir r
            (gz_path-append stem day n h ∙ sym (gz_path-append stem day' n h')))),
)
