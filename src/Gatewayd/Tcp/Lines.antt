-- ===== src/Gatewayd/Tcp/Lines.antt =====
-- gatewayd/src/transport_tcp.rs: the lines that are written for a request with an id.
use acp_a2a_gateway.Prelude.{
  String, ◌<◌, ◌≡◌, refl, sym, subst, ◌⊎◌, inl, inr, Option, none, some, List, [], ◌∷◌, map,
  and_then, All, Error, Result, ok, err, arith,
}
use acp_a2a_gateway.Protocol.Json.{Value, str, get}
use acp_a2a_gateway.Protocol.Acp.{SessionUpdate}
use acp_a2a_gateway.Core.A2aAsAcp.{A2aAsAcp}
use acp_a2a_gateway.Gatewayd.Registry.{Registry, try_acquire_stream}
use acp_a2a_gateway.Gatewayd.Registry.Permits.{free_permits, try_acquire_stream-free}
use acp_a2a_gateway.Gatewayd.Tcp.Serving.{
  Serde, AcpDispatchResult, json, streaming, write_ok, write_error, update_line, write_stream,
  respond, reply,
}

module _ (serde : Serde) (agent_id : String) where
  -- One response that carries the id: the error, or the result.
  abbrev pub IsFailed : Value → Error → List Value → Type 0
  IsFailed id e lines =
      (v : Value) × (lines ≡ v ∷ [])
      × (get v "id" ≡ some id)
      × (get v "result" ≡ none)
      × (and_then (get v "error") (λ x. get x "message") ≡ some (str (serde.describe e)))

  abbrev pub IsAnswered : Value → Value → List Value → Type 0
  IsAnswered id result lines =
      (v : Value) × (lines ≡ v ∷ [])
      × (get v "id" ≡ some id)
      × (get v "result" ≡ some result)
      × (get v "error" ≡ none)

  -- What is written for a request with an id, by what the agent made of it and by the free permits.
  abbrev pub AnswersId : Registry → Option Value → Result AcpDispatchResult → List Value → Type 0
  AnswersId registry none r lines = lines ≡ []
  AnswersId registry (some id) (err e) lines = IsFailed id e lines
  AnswersId registry (some id) (ok (json result)) lines = IsAnswered id result lines
  AnswersId registry (some id) (ok (streaming us)) lines =
      ((free_permits agent_id registry ≡ 0) × (e : Error) × IsFailed id e lines)
      ⊎ ((0 < free_permits agent_id registry)
          × (lines ≡ map (λ u. update_line (serde.write_update u)) us)
          × All (λ v. get v "id" ≡ none) lines)

  updates-AnswersId :
      (us : List SessionUpdate)
      → All (λ v. get v "id" ≡ none) (map (λ u. update_line (serde.write_update u)) us)
  unfolding update_line
  updates-AnswersId [] = tt
  updates-AnswersId (u ∷ us) = (refl, updates-AnswersId us)

  refused_lines :
      (id : Value) (us : List SessionUpdate) (slot : Result String) (e : Error) (r : Registry)
      → slot ≡ err e
      → IsFailed id e (write_stream serde agent_id id us slot r).0
  unfolding write_stream write_error
  refused_lines id us (ok permit) e r h = absurd (ground arith)
  refused_lines id us (err x) e r h = (_, refl, refl, refl, ground arith)

  streamed_lines :
      (id : Value) (us : List SessionUpdate) (slot : Result String) (permit : String) (r : Registry)
      → slot ≡ ok permit
      → (write_stream serde agent_id id us slot r).0
        ≡ map (λ u. update_line (serde.write_update u)) us
  unfolding write_stream
  streamed_lines id us (err x) permit r h = absurd (ground arith)
  streamed_lines id us (ok p) permit r h = refl

  stream-AnswersId :
      (id : Value) (us : List SessionUpdate) (registry : Registry)
      → AnswersId registry
          (some id)
          (ok (streaming us))
          (respond serde agent_id id (ok (streaming us)) registry).0
  unfolding respond
  stream-AnswersId id us registry =
      let slot = try_acquire_stream agent_id registry in
      elim (try_acquire_stream-free agent_id registry) [
        | inl (z, e, h) ↦ inl (z, e, refused_lines id us slot.0 e slot.1 h)
        | inr (p, permit, h) ↦
            let same = streamed_lines id us slot.0 permit slot.1 h in
            inr (p, same, subst (All (λ v. get v "id" ≡ none)) (sym same) (updates-AnswersId us))
      ]

  pub reply-AnswersId :
      (id : Option Value) (r : Result AcpDispatchResult) (s : A2aAsAcp) (registry : Registry)
      → AnswersId registry id r (reply serde agent_id id (r, s) registry).0
  unfolding reply respond write_ok write_error
  reply-AnswersId none r s registry = refl
  reply-AnswersId (some id) (err e) s registry = (_, refl, refl, refl, refl)
  reply-AnswersId (some id) (ok (json v)) s registry = (_, refl, refl, refl, refl)
  reply-AnswersId (some id) (ok (streaming us)) s registry = stream-AnswersId id us registry
