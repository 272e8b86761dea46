-- ===== src/Gatewayd/Tcp/Answers.antt =====
-- gatewayd/src/transport_tcp.rs: which requests are answered, and what a connection leaves behind.
use acp_a2a_gateway.Prelude.{
  String, ◌≡◌, refl, ◌∙◌, ◌⊎◌, inl, inr, Option, none, some, List, [], ◌∷◌, ◌=ˢ◌, and_then, Result,
  ok, err, Option-cases, Bool-cases, arith,
}
use acp_a2a_gateway.Protocol.Json.{Value, null, get, as_str}
use acp_a2a_gateway.Protocol.Acp.{SessionUpdate, SessionId, PromptRequest}
use acp_a2a_gateway.Core.Utf8.{Text, trim}
use acp_a2a_gateway.Core.A2aAsAcp.{A2aAsAcp, new_session, prompt, cancel, drop_session}
use acp_a2a_gateway.Core.A2aAsAcp.Leaks.{
  IsTidy, register_session-IsTidy, drop_session-IsTidy, prompt-IsTidy,
}
use acp_a2a_gateway.Gatewayd.Registry.{Registry, try_acquire_stream}
use acp_a2a_gateway.Gatewayd.Registry.Permits.{SameSlots, permit_returned, permit_refused}
use acp_a2a_gateway.Gatewayd.Tcp.Lines.{AnswersId, reply-AnswersId}
use acp_a2a_gateway.Gatewayd.Tcp.Serving.{
  JsonRpcRequest, read_request, Serde, Moment, AcpDispatchResult, json, streaming,
  dispatch_acp_method, dispatch_initialize, dispatch_new, dispatch_prompt, dispatch_cancel,
  write_error, Connection, write_stream, respond, reply, answer_request, serve_read, serve_line,
  serve_lines,
}

module _ (serde : Serde) (moment : Moment) where
  new-IsTidy :
      (params : Value) (s : A2aAsAcp) → IsTidy s → IsTidy (dispatch_new serde moment params s).1
  unfolding dispatch_new new_session
  new-IsTidy params s v = elim (Bool-cases (serde.is_new_session params)) [
    | inl e ↦ rw e (register_session-IsTidy moment.env.now _ s v)
    | inr e ↦ rw e v
  ]

  prompt-request_lem :
      (params : Value) (s : A2aAsAcp)
      → ((dispatch_prompt serde moment params s).1 ≡ s)
        ⊎ ((req : PromptRequest) × ((dispatch_prompt serde moment params s).1
              ≡ (prompt moment.env moment.agent moment.suffix req s).1))
  unfolding dispatch_prompt
  prompt-request_lem params s = elim (Option-cases (serde.read_prompt params)) [
    | inl e ↦ inl (ground arith)
    | inr (req, e) ↦ inr (req, ground arith)
  ]

  prompt-request-IsTidy :
      (params : Value) (s : A2aAsAcp) → IsTidy s → IsTidy (dispatch_prompt serde moment params s).1
  prompt-request-IsTidy params s v = elim (prompt-request_lem params s) [
    | inl e ↦ rw e v
    | inr (req, e) ↦ rw e (prompt-IsTidy moment.env moment.agent moment.suffix req s v)
  ]

  cancel_lem :
      (params : Value) (s : A2aAsAcp)
      → ((dispatch_cancel serde moment params s).1 ≡ s)
        ⊎ ((session : SessionId) × ((dispatch_cancel serde moment params s).1
              ≡ drop_session session s))
  unfolding dispatch_cancel cancel
  cancel_lem params s = elim (Option-cases (and_then (get params "sessionId") as_str)) [
    | inl e ↦ inl (ground arith)
    | inr (session, e) ↦ inr (session, ground arith)
  ]

  cancel-IsTidy :
      (params : Value) (s : A2aAsAcp) → IsTidy s → IsTidy (dispatch_cancel serde moment params s).1
  cancel-IsTidy params s v = elim (cancel_lem params s) [
    | inl e ↦ rw e v
    | inr (session, e) ↦ rw e (drop_session-IsTidy session s v)
  ]

  initialize_lem :
      (params : Value) (s : A2aAsAcp) → (dispatch_initialize serde moment params s).1 ≡ s
  unfolding dispatch_initialize
  initialize_lem params s = ground arith

  dispatch-IsTidy :
      (request : JsonRpcRequest) (s : A2aAsAcp)
      → IsTidy s
      → IsTidy (dispatch_acp_method serde moment request s).1
  unfolding dispatch_acp_method
  dispatch-IsTidy request s v = elim (Bool-cases (request.method =ˢ "initialize")) [
    | inl e ↦ rw e (rw (initialize_lem request.params s) v)
    | inr e ↦ rw e (elim (Bool-cases (request.method =ˢ "session/new")) [
      | inl e' ↦ rw e' (new-IsTidy request.params s v)
      | inr e' ↦ rw e' (elim (Bool-cases (request.method =ˢ "session/prompt")) [
        | inl f ↦ rw f (prompt-request-IsTidy request.params s v)
        | inr f ↦ rw f (elim (Bool-cases (request.method =ˢ "session/cancel")) [
          | inl g ↦ rw g (cancel-IsTidy request.params s v)
          | inr g ↦ rw g v
        ])
      ])
    ])
  ]

module _ (serde : Serde) (agent_id : String) where
  -- What a connection keeps: an adapter without leaks, and the gateway's permits.
  abbrev pub Kept : Connection → Connection → Type 0
  Kept c c' = IsTidy c'.adapter × SameSlots c.registry c'.registry

  write_stream_slots :
      (id : Value) (us : List SessionUpdate) (slot : Result String) (r : Registry)
      → (try_acquire_stream agent_id r).0 ≡ slot
      → SameSlots r (write_stream serde agent_id id us slot (try_acquire_stream agent_id r).1).1
  unfolding write_stream
  write_stream_slots id us (err x) r e = permit_refused agent_id r x e
  write_stream_slots id us (ok permit) r e = permit_returned agent_id permit r e

  respond_slots :
      (id : Value) (r : Result AcpDispatchResult) (registry : Registry)
      → SameSlots registry (respond serde agent_id id r registry).1
  unfolding respond
  respond_slots id (err e) registry = λ j. refl
  respond_slots id (ok (json v)) registry = λ j. refl
  respond_slots id (ok (streaming us)) registry =
      write_stream_slots id us (try_acquire_stream agent_id registry).0 registry refl

  reply-Kept :
      (id : Option Value) (r : Result AcpDispatchResult) (s : A2aAsAcp) (c : Connection)
      → IsTidy s
      → Kept c (reply serde agent_id id (r, s) c.registry).1
  unfolding reply
  reply-Kept none r s c v = (v, λ j. refl)
  reply-Kept (some id) r s c v = (v, respond_slots id r c.registry)

  read-Kept :
      (moment : Moment) (line : Text) (read : Option JsonRpcRequest) (c : Connection)
      → IsTidy c.adapter
      → Kept c (serve_read serde agent_id moment line read c).1
  unfolding serve_read answer_request
  read-Kept moment line none c v = (v, λ j. refl)
  read-Kept moment line (some request) c v =
      reply-Kept request.id (dispatch_acp_method serde moment request c.adapter).0
        (dispatch_acp_method serde moment request c.adapter).1 c
        (dispatch-IsTidy serde moment request c.adapter v)

  line-Kept :
      (moment : Moment) (line : Text) (c : Connection)
      → IsTidy c.adapter
      → Kept c (serve_line serde agent_id moment line c).1
  unfolding serve_line
  line-Kept moment line c v =
      read-Kept moment line (and_then (serde.from_str (trim line)) read_request) c v

  -- A connection, whatever its client sends and however the agent answers, keeps an adapter
  -- without leaks: every lease entry belongs to an open session, and the sessions stay bounded; and
  -- it gives back every permit for a stream that it takes.
  pub serve_lines-Kept :
      (lines : List (Moment × Text)) (c : Connection)
      → IsTidy c.adapter
      → Kept c (serve_lines serde agent_id lines c).1
  unfolding serve_lines
  serve_lines-Kept [] c v = (v, λ j. refl)
  serve_lines-Kept ((moment, line) ∷ more) c v =
      let (tidy, slots) = line-Kept moment line c v in
      let (tidy', slots') =
        serve_lines-Kept more (serve_line serde agent_id moment line c).1 tidy in
      (tidy', λ j. slots' j ∙ slots j)

  unfoldable pub Answers : Moment → Connection → Option JsonRpcRequest → List Value → Type 0
  Answers moment c none lines = (v : Value) × (lines ≡ v ∷ []) × (get v "id" ≡ some null)
  Answers moment c (some request) lines =
      AnswersId serde agent_id c.registry request.id
        (dispatch_acp_method serde moment request c.adapter).0 lines

  read-Answers :
      (moment : Moment) (line : Text) (read : Option JsonRpcRequest) (c : Connection)
      → Answers moment c read (serve_read serde agent_id moment line read c).0
  unfolding Answers serve_read answer_request write_error
  read-Answers moment line none c = (_, refl, refl)
  read-Answers moment line (some request) c =
      reply-AnswersId serde agent_id request.id
        (dispatch_acp_method serde moment request c.adapter).0
        (dispatch_acp_method serde moment request c.adapter).1 c.registry

  -- A line that is no request is answered once, with a null id; a notification is not answered; a
  -- request with an id that fails or has a result is answered once, with that id and the error's
  -- message or the result. A request with an id that makes the agent stream is answered once, with
  -- that id and an error, if the gateway has no free permit for the agent; with a free permit just
  -- the updates of the stream are written, in order, and none carries an id, so the request never
  -- gets its response.
  pub serve_line-Answers :
      (moment : Moment) (line : Text) (c : Connection)
      → Answers moment c
          (and_then (serde.from_str (trim line)) read_request)
          (serve_line serde agent_id moment line c).0
  unfolding serve_line
  serve_line-Answers moment line c =
      read-Answers moment line (and_then (serde.from_str (trim line)) read_request) c
