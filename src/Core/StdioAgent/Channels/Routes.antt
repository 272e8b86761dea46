-- ===== src/Core/StdioAgent/Channels/Routes.antt =====
-- core/src/stdio_agent.rs: which channel the chunks of a session go to.
use mathlib.Core.List.{append-nil}
use acp_a2a_gateway.Prelude.{
  ℕ, String, ◌<◌, ◌≡◌, refl, sym, Bool, true, false, Option, none, some, List, [], ◌∷◌, ◌++◌, ◌==◌,
  ◌⊎◌, not, if◌then◌else◌, is_some, get_or, ok, err, Option-cases, inl, inr, ltb, Result, arith,
  lookup, ◌=ˢ◌, eq_iff, lookup-insert, lookup-remove, remove,
}
use acp_a2a_gateway.Prelude.Ids
use acp_a2a_gateway.Prelude.Ids.{Ids}
use acp_a2a_gateway.Protocol.Json.{Value}
use acp_a2a_gateway.Protocol.Acp.{SessionUpdate, SessionId}
use acp_a2a_gateway.Core.StdioAgent.{
  StdioAcpAgent, resolve, send_request, notify, reply_method_not_found, deliver, push,
}
use acp_a2a_gateway.Core.StdioAgent.Prompts.{open_channel, close_channel}
use acp_a2a_gateway.Core.StdioAgent.Channels.{wanted, sent}

-- A channel that has not been made is not in use.
abbrev pub route_fresh : ℕ → Option ℕ → Bool
route_fresh n none = true
route_fresh n (some d) = ltb d n

abbrev pub IsFresh : StdioAcpAgent → Type 0
IsFresh s =
    ((k : SessionId) → route_fresh s.next_channel (lookup k s.updates) ≡ true)
    × ((d : ℕ) → (if is_some (Ids.lookup d s.channels) then ltb d s.next_channel else true) ≡ true)

-- The channel serves this session and no other, or, if `live` is false, nobody.
abbrev pub route_ok : Bool → SessionId → ℕ → ℕ → SessionId → Option ℕ → Bool
route_ok live session c n k none = if k =ˢ session then not live else true
route_ok live session c n k (some d) =
    if ltb d n
    then (if k =ˢ session then (if d == c then live else not live) else not (d == c))
    else false

abbrev pub Serves : Bool → SessionId → ℕ → StdioAcpAgent → Type 0
Serves live session c s =
    (c < s.next_channel)
    × ((k : SessionId) → route_ok live session c s.next_channel k (lookup k s.updates) ≡ true)

unfoldable pub SameRoutes : StdioAcpAgent → StdioAcpAgent → Type 0
SameRoutes s t =
    (t.updates ≡ s.updates) × (t.channels ≡ s.channels) × (t.next_channel ≡ s.next_channel)

pub reply_lem :
    (delivered : Bool) (id v : Value) (s : StdioAcpAgent)
    → SameRoutes s (reply_method_not_found delivered id v s)
unfolding SameRoutes reply_method_not_found
reply_lem delivered id v s = ground arith

pub resolve_lem : (id : ℕ) (v : Value) (s : StdioAcpAgent) → SameRoutes s (resolve id v s)
unfolding SameRoutes resolve
resolve_lem id v s = ground arith

pub send_lem :
    (delivered : Bool) (method : String) (params : Value) (s : StdioAcpAgent)
    → SameRoutes s (send_request delivered method params s).1
unfolding SameRoutes send_request
send_lem delivered method params s = ground arith

pub notify_lem :
    (alive : Result (Unit {0})) (delivered : Bool) (method : String) (params : Value)
    (s : StdioAcpAgent)
    → SameRoutes s (notify alive delivered method params s).1
unfolding SameRoutes notify
notify_lem (err e) delivered method params s = (refl, refl, refl)
notify_lem (ok u) delivered method params s = ground arith

-- What a chunk adds to the channel.
unfoldable pub added : Bool → SessionId → Option (SessionId × SessionUpdate) → List SessionUpdate
unfolding wanted
added live session o = if live then wanted session o else []

pub deliver-none : (s : StdioAcpAgent) → deliver none s ≡ s
unfolding deliver
deliver-none s = refl

pub deliver_cases :
    (j : SessionId) (u : SessionUpdate) (s : StdioAcpAgent)
    → ((lookup j s.updates ≡ none) × (deliver (some (j, u)) s ≡ s))
      ⊎ ((d : ℕ) × (lookup j s.updates ≡ some d)
          × (deliver (some (j, u)) s ≡ record s { channels = push d u s.channels }))
unfolding deliver
deliver_cases j u s = elim (Option-cases (lookup j s.updates)) [
  | inl e ↦ inl (e, ground arith)
  | inr (d, e) ↦ inr (d, e, ground arith)
]

pub deliver-Serves :
    (live : Bool) (session : SessionId) (c : ℕ) (o : Option (SessionId × SessionUpdate))
    (s : StdioAcpAgent)
    → Serves live session c s
    → Serves live session c (deliver o s)
deliver-Serves live session c none s h = rw (deliver-none s) h
deliver-Serves live session c (some (j, u)) s h = elim (deliver_cases j u s) [
  | inl (e, same) ↦ rw same h
  | inr (d, e, pushed) ↦ rw pushed h
]

pub deliver-IsFresh :
    (o : Option (SessionId × SessionUpdate)) (s : StdioAcpAgent) → IsFresh s → IsFresh (deliver o s)
unfolding push
deliver-IsFresh none s h = rw (deliver-none s) h
deliver-IsFresh (some (j, u)) s h = elim (deliver_cases j u s) [
  | inl (e, same) ↦ rw same h
  | inr (d, e, pushed) ↦ rw pushed (
    h.0,
    λ i. ground (
      arith,
      h.0 j,
      h.1 i,
      Ids.lookup-insert d i (get_or (Ids.lookup d s.channels) [] ++ u ∷ []) s.channels,
    ),
  )
]

pub deliver-sent :
    (live : Bool) (session : SessionId) (c : ℕ) (o : Option (SessionId × SessionUpdate))
    (s : StdioAcpAgent)
    → Serves live session c s
    → sent c (deliver o s) ≡ sent c s ++ added live session o
unfolding push added
deliver-sent true session c none s h = rw (deliver-none s) (sym (append-nil (sent c s)))
deliver-sent false session c none s h = rw (deliver-none s) (sym (append-nil (sent c s)))
deliver-sent live session c (some (j, u)) s h = elim (deliver_cases j u s) [
  | inl (e, same) ↦ rw same (ground (arith, h.1 j, append-nil (sent c s)))
  | inr (d, e, pushed) ↦ rw pushed (
      ground (
        arith,
        h.1 j,
        append-nil (sent c s),
        Ids.lookup-insert d c (get_or (Ids.lookup d s.channels) [] ++ u ∷ []) s.channels,
      ))
]

pub Same-Serves :
    (live : Bool) (session : SessionId) (c : ℕ) (s t : StdioAcpAgent)
    → SameRoutes s t
    → Serves live session c s
    → Serves live session c t
unfolding SameRoutes
Same-Serves live session c s t e h = rw e.0 (rw e.2 h)

pub open-Serves :
    (live : Bool) (session other : SessionId) (c : ℕ) (s : StdioAcpAgent)
    → not (other =ˢ session) ≡ true
    → Serves live session c s
    → Serves live session c (open_channel other s).1
unfolding open_channel
open-Serves live session other c s l h = (
  ground (arith, h.0),
  λ k. ground (
    arith,
    h.0,
    h.1 k,
    l,
    lookup-insert other k s.next_channel (remove other s.updates),
    lookup-remove other k s.updates,
    eq_iff other k,
    eq_iff other session,
    eq_iff k session,
  ),
)

pub close-Serves :
    (live : Bool) (session other : SessionId) (c : ℕ) (s : StdioAcpAgent)
    → not (other =ˢ session) ≡ true
    → Serves live session c s
    → Serves live session c (close_channel other s)
unfolding close_channel
close-Serves live session other c s l h = (
  h.0,
  λ k. ground (
    arith,
    h.1 k,
    l,
    lookup-remove other k s.updates,
    eq_iff other k,
    eq_iff other session,
    eq_iff k session,
  ),
)

pub Same-IsFresh : (s t : StdioAcpAgent) → SameRoutes s t → IsFresh s → IsFresh t
unfolding SameRoutes
Same-IsFresh s t e h = rw e.0 (rw e.1 (rw e.2 h))

pub open-IsFresh :
    (other : SessionId) (s : StdioAcpAgent) → IsFresh s → IsFresh (open_channel other s).1
unfolding open_channel
open-IsFresh other s h = (
  λ k. ground (
    arith,
    h.0 k,
    lookup-insert other k s.next_channel (remove other s.updates),
    lookup-remove other k s.updates,
  ),
  λ d. ground (arith, h.1 d),
)

pub close-IsFresh :
    (other : SessionId) (s : StdioAcpAgent) → IsFresh s → IsFresh (close_channel other s)
unfolding close_channel
close-IsFresh other s h = (λ k. ground (arith, h.0 k, lookup-remove other k s.updates), h.1)

-- The channel that a prompt opens serves its session, and nothing has been sent on it.
pub opened-Serves :
    (session : SessionId) (s : StdioAcpAgent)
    → IsFresh s
    → Serves true session s.next_channel (open_channel session s).1
unfolding open_channel
opened-Serves session s h = (
  omega arith,
  λ k. ground (
    arith,
    h.0 k,
    lookup-insert session k s.next_channel (remove session s.updates),
    lookup-remove session k s.updates,
    eq_iff session k,
    eq_iff k session,
  ),
)

-- When a turn of the session ends, its channel serves nobody.
pub ended-Serves :
    (session : SessionId) (c : ℕ) (s : StdioAcpAgent)
    → Serves true session c s
    → Serves false session c (close_channel session s)
unfolding close_channel
ended-Serves session c s h = (
  h.0,
  λ k. ground (arith, h.1 k, lookup-remove session k s.updates, eq_iff session k, eq_iff k session),
)

pub opened_sent : (s : StdioAcpAgent) → IsFresh s → sent s.next_channel s ≡ []
opened_sent s h = ground (arith, h.1 s.next_channel)

pub quiet_sent :
    (live : Bool) (c : ℕ) (s t : StdioAcpAgent) (us : List SessionUpdate)
    → t.channels ≡ s.channels
    → us ≡ []
    → sent c t ≡ sent c s ++ (if live then us else [])
quiet_sent true c s t us e n = rw e (rw n (sym (append-nil (sent c s))))
quiet_sent false c s t us e n = rw e (sym (append-nil (sent c s)))
