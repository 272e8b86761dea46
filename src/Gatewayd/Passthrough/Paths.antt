-- ===== src/Gatewayd/Passthrough/Paths.antt =====
-- Which path below an agent's address a client can reach.
use Prim.Native.Char.{code}
use Prim.Native.String
use text.Mathlib.TextLemmas.{nil-append, cons-append}
use acp_a2a_gateway.Prelude.{
  String, ◌≡◌, ◌≢◌, refl, ap, ◌∙◌, ◌⊎◌, inl, inr, Bool, true, false, not, ◌&&◌, Option, List, [],
  ◌∷◌, All, All-keep, keep, ◌==◌, eq_iff, Bool-cases, arith,
}
use acp_a2a_gateway.Core.HttpAgent.{trim_slashes}
use acp_a2a_gateway.Gatewayd.Passthrough.{
  split_path, add_front, is_kept, join_path, safe_path, query_suffix, build_target_url,
}

abbrev has_no_slash : String → Bool
has_no_slash String.[] = true
has_no_slash (String.◌∷◌ c s) = not (code c == b'/') && has_no_slash s

abbrev pub IsPlain : String → Type 0
IsPlain s = has_no_slash s ≡ true

add_front-IsPlain :
    (c : Prim.Native.Char.Char) (pieces : List String)
    → code c == b'/' ≡ false
    → All IsPlain pieces
    → All IsPlain (add_front c pieces)
unfolding add_front
add_front-IsPlain c [] n h = (ground arith, tt)
add_front-IsPlain c (piece ∷ pieces) n h = (ground (arith, h.0), h.1)

split_path-IsPlain : (path : String) → All IsPlain (split_path path)
unfolding split_path
split_path-IsPlain String.[] = (refl, tt)
split_path-IsPlain (String.◌∷◌ c path) = elim (Bool-cases (code c == b'/')) [
  | inl y ↦ rw y (refl, split_path-IsPlain path)
  | inr n ↦ rw n (add_front-IsPlain c (split_path path) n (split_path-IsPlain path))
]

head_plain :
    (c : Prim.Native.Char.Char) (s : String) → IsPlain (String.◌∷◌ c s) → code c == b'/' ≡ false
head_plain c s h = ground arith

tail-IsPlain : (c : Prim.Native.Char.Char) (s : String) → IsPlain (String.◌∷◌ c s) → IsPlain s
tail-IsPlain c s h = ground arith

split_path_plain : (piece : String) → IsPlain piece → split_path piece ≡ piece ∷ []
unfolding split_path add_front
split_path_plain String.[] h = refl
split_path_plain (String.◌∷◌ c piece) h =
    rw (head_plain c piece h, split_path_plain piece (tail-IsPlain c piece h)) refl

-- The slash as the character that starts it.
slash_front : (rest : String) → String.◌++◌ "/" rest ≡ String.◌∷◌ "/" rest
slash_front rest = cons-append "/" "" rest ∙ ap (String.◌∷◌ "/") (nil-append rest)

split_path-append :
    (piece rest : String)
    → IsPlain piece
    → split_path (String.◌++◌ piece (String.◌++◌ "/" rest)) ≡ piece ∷ split_path rest
unfolding split_path add_front
split_path-append String.[] rest h =
    ap split_path (nil-append (String.◌++◌ "/" rest) ∙ slash_front rest)
split_path-append (String.◌∷◌ c piece) rest h =
    rw
      (
        cons-append c piece (String.◌++◌ "/" rest),
        head_plain c piece h,
        split_path-append piece rest (tail-IsPlain c piece h),
      )
      refl

split_path-join_path :
    (piece : String) (pieces : List String)
    → All IsPlain (piece ∷ pieces)
    → split_path (join_path (piece ∷ pieces)) ≡ piece ∷ pieces
unfolding join_path
split_path-join_path piece [] h = split_path_plain piece h.0
split_path-join_path piece (next ∷ pieces) h =
    split_path-append piece (join_path (next ∷ pieces)) h.0
    ∙ ap (λ rest. piece ∷ rest) (split_path-join_path next pieces h.1)

-- A segment that says where to go: neither empty nor a step to here or upwards.
abbrev pub Clean : String → Type 0
Clean s = (s ≢ "") × (s ≢ ".") × (s ≢ "..")

is_kept-Clean : (s : String) → is_kept s ≡ true → Clean s
unfolding is_kept
is_kept-Clean s h = (
  λ e. ground (arith, eq_iff s ""),
  λ e. ground (arith, eq_iff s "."),
  λ e. ground (arith, eq_iff s ".."),
)

keep-Clean : (pieces : List String) → All Clean (keep is_kept pieces)
keep-Clean [] = tt
keep-Clean (piece ∷ pieces) = elim (Bool-cases (is_kept piece)) [
  | inl y ↦ rw y (is_kept-Clean piece y, keep-Clean pieces)
  | inr n ↦ rw n (keep-Clean pieces)
]

split_again :
    (pieces : List String)
    → All IsPlain pieces
    → (pieces ≡ []) ⊎ (split_path (join_path pieces) ≡ pieces)
split_again [] h = inl refl
split_again (piece ∷ pieces) h = inr (split_path-join_path piece pieces h)

-- The address that a request goes on to is the agent's own without the slashes at its end, a
-- slash, segments and the query. The segments are those of the request's path, in their order,
-- less the empty ones, `.` and `..`; split at its slashes, the path that they make is those
-- segments again, if there are any.
pub build_target_url_confined :
    (base path : String) (query : Option String)
    → (segments : List String) × (segments ≡ keep is_kept (split_path path))
      × All Clean segments
      × (build_target_url base path query
          ≡ String.◌++◌
              (trim_slashes base)
              (String.◌++◌ "/" (String.◌++◌ (join_path segments) (query_suffix query))))
      × ((segments ≡ []) ⊎ (split_path (join_path segments) ≡ segments))
unfolding build_target_url safe_path
build_target_url_confined base path query = (
  keep is_kept (split_path path),
  refl,
  keep-Clean (split_path path),
  refl,
  split_again (keep is_kept (split_path path))
      (All-keep IsPlain is_kept (split_path path) (split_path-IsPlain path)),
)
