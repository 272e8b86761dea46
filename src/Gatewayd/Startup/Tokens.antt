-- ===== src/Gatewayd/Startup/Tokens.antt =====
-- Which tokens open the gateway.
use acp_a2a_gateway.Prelude.{
  ℕ, String, ◌≡◌, refl, ap, ◌∙◌, sym, subst, inl, inr, Bool, true, false, Bool-cases, Option, none,
  some, List, [], ◌∷◌, ◌=ˢ◌, eq_iff, eq_refl, contains, Result, ok, err, ok_injective, arith,
}
use acp_a2a_gateway.Protocol.Json.{Value}
use acp_a2a_gateway.Gatewayd.Registry.{Registry, check_token}
use acp_a2a_gateway.Gatewayd.Requests.{extract_bearer}
use acp_a2a_gateway.Gatewayd.Config.Raw.{RawConfig}
use acp_a2a_gateway.Gatewayd.DebugLevel.{DebugLevelState, set_debug_level, level_of, change_level}
use acp_a2a_gateway.Gatewayd.Startup.{
  placeholder, resolved, resolve_env_placeholders, add_token, resolve_all, build_registry,
}
use acp_a2a_gateway.Gatewayd.Startup.Serving.{registry_of_parts}

module _ (var : String → Option String) where
  -- A token that a text of the configuration stands for.
  abbrev pub IsConfigured : (token : String) → (texts : List String) → Type 0
  IsConfigured token texts =
      (text : String) × (contains text texts ≡ true)
      × (resolve_env_placeholders var text ≡ ok token)

  add_token_ok :
      (token : Result String) (others : Result (List String)) (tokens : List String)
      → add_token var token others ≡ ok tokens
      → (first : String) × (rest : List String) × (token ≡ ok first)
        × (others ≡ ok rest)
        × (tokens ≡ first ∷ rest)
  unfolding add_token
  add_token_ok (err e) others tokens h = absurd (ground arith)
  add_token_ok (ok first) (err e) tokens h = absurd (ground arith)
  add_token_ok (ok first) (ok rest) tokens h = (first, rest, refl, refl, sym (ok_injective h))

  resolve_all_sound :
      (texts tokens : List String) (token : String)
      → resolve_all var texts ≡ ok tokens
      → contains token tokens ≡ true
      → IsConfigured token texts
  unfolding resolve_all
  resolve_all_sound [] tokens token h c =
      absurd (ground (arith, subst (λ ts. contains token ts ≡ false) (ok_injective h) refl))
  resolve_all_sound (text ∷ texts) tokens token h c =
      let (first, rest, f, r, t) =
        add_token_ok (resolve_env_placeholders var text) (resolve_all var texts) tokens h in
      elim (Bool-cases (first =ˢ token)) [
        | inl y ↦
            (text, ground (arith, eq_refl text), f ∙ ap (λ u. ok u) ((eq_iff first token).0 y))
        | inr n ↦
            let c' : contains token (first ∷ rest) ≡ true =
              subst (λ ts. contains token ts ≡ true) t c in
            let (there, k, same) = resolve_all_sound texts rest token r (ground arith) in
            (there, ground arith, same)
      ]

  resolve_all_complete :
      (texts tokens : List String) (token text : String)
      → resolve_all var texts ≡ ok tokens
      → contains text texts ≡ true
      → resolve_env_placeholders var text ≡ ok token
      → contains token tokens ≡ true
  unfolding resolve_all
  resolve_all_complete [] tokens token text h c same = absurd (ground arith)
  resolve_all_complete (here ∷ texts) tokens token text h c same =
      let (first, rest, f, r, t) =
        add_token_ok (resolve_env_placeholders var here) (resolve_all var texts) tokens h in
      subst (λ ts. contains token ts ≡ true) (sym t)
        (elim (Bool-cases (here =ˢ text)) [
          | inl y ↦
              let found : first ≡ token =
                ok_injective
                  (sym f ∙ ap (resolve_env_placeholders var) ((eq_iff here text).0 y) ∙ same) in
              ground (arith, eq_iff first token)
          | inr n ↦
              let later = resolve_all_complete texts rest token text r (ground arith) same in
              ground arith
        ])

-- A token is accepted exactly if it is what a text of the configuration stands for: the text
-- itself, or the value of the variable that it names.
pub check_token_exact :
    (var : String → Option String) (raw : RawConfig) (allowed : List String)
    (built : Registry × List String) (token : String)
    → build_registry var raw allowed ≡ ok built
    → (check_token token built.0 ≡ true → IsConfigured var token raw.tokens)
      × (IsConfigured var token raw.tokens → check_token token built.0 ≡ true)
unfolding build_registry check_token
check_token_exact var raw allowed built token h =
    let resolves = (registry_of_parts var _ _ _ built h).0 in
    (
      resolve_all_sound var raw.tokens built.0.tokens token resolves,
      λ (text, k, same).
          resolve_all_complete var raw.tokens built.0.tokens token text resolves k same,
    )

-- If a token of the configuration is a placeholder and its variable is set, but empty, then the
-- registry accepts the empty token, and `/debug/level`, which is given the same tokens, obeys a
-- request without an `Authorization` header.
pub empty_variable_opens :
    (var : String → Option String) (raw : RawConfig) (allowed : List String)
    (built : Registry × List String) (text name : String) (modifies : Bool)
    (from_str : String → Option Value) (to_lowercase : String → String) (now : ℕ) (body : String)
    (s : DebugLevelState)
    → contains text raw.tokens ≡ true
    → placeholder text ≡ some name
    → var name ≡ some ""
    → build_registry var raw allowed ≡ ok built
    → s.tokens ≡ built.0.tokens
    → (check_token "" built.0 ≡ true)
      × (set_debug_level modifies from_str to_lowercase now none body s
          ≡ change_level modifies now (level_of modifies from_str to_lowercase body) s)
unfolding check_token set_debug_level extract_bearer resolve_env_placeholders resolved
empty_variable_opens var raw allowed built text name modifies from_str to_lowercase now body s k p v
      h t =
    let opens : contains "" built.0.tokens ≡ true =
      (check_token_exact var raw allowed built "" h).1 (text, k, rw (p, v) refl) in
    (opens, rw (t, opens) refl)
