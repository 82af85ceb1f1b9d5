-- ===== src/Routing/Incoming.antt =====
-- lib/routing/incoming_query.go: a query that its handler resolves once, by accepting or rejecting.
pub mod Laws
use astral_go.Base.{
  ℕ, ◌⊎◌, inl, inr, Bool, true, false, Option, none, some, List, [], ◌∷◌, ◌++◌, ◌==◌, if◌then◌else◌,
}
use astral_go.Routing.Query.{RouteError, rejected, new_err_rejected, default_reject_code}

abbrev pub code_canceled : ℕ
code_canceled = 3

abbrev pub code_timeout : ℕ
code_timeout = 6

-- A queryResponse: the writer of the pipe, or the error.
pub data Response : Type 0 where
  accepted : Response
  refused : RouteError → Response

-- `responses` are the values ever sent to the response channel, whose buffer has one place;
-- `reader` says that `accepted` holds the read half of the pipe, and `torn_down` that abandon has
-- closed it and the remote writer.
pub record IncomingQuery : Type 0 where
  pub resolved : Bool
  pub responses : List Response
  pub reader : Bool
  pub torn_down : Bool

unfoldable pub new_incoming_query : IncomingQuery
new_incoming_query = record { resolved = false; responses = []; reader = false; torn_down = false }

unfoldable pub send : Response → IncomingQuery → IncomingQuery
send r q = record q { responses = q.responses ++ (r ∷ []) }

-- AcceptRaw: false is the ErrorConn "query already resolved".
unfoldable pub accept_raw : IncomingQuery → IncomingQuery × Bool
accept_raw q =
    if q.resolved
    then (q, false)
    else (send accepted (record q { resolved = true; reader = true }), true)

unfoldable pub reject : IncomingQuery → IncomingQuery × Bool
reject q =
    if q.resolved
    then (q, false)
    else (send (refused (rejected default_reject_code)) (record q { resolved = true }), true)

unfoldable pub reject_with_code : ℕ → IncomingQuery → IncomingQuery × Bool
reject_with_code code q = if q.resolved then (q, false) else (
  send (refused (new_err_rejected (if code == 0 then 1 else code))) (record q { resolved = true }),
  true,
)

unfoldable pub abandon : IncomingQuery → IncomingQuery
abandon q = if q.reader then record q { reader = false; torn_down = true } else q

-- The branch that the select of await takes.
pub data Branch : Type 0 where
  answered : Response → Branch
  canceled : Branch
  timed_out : Branch

unfoldable pub await : Branch → IncomingQuery → IncomingQuery × Response
await (answered r) q = (q, r)
await canceled q = ((reject q).0, refused (new_err_rejected code_canceled))
await timed_out q = ((reject_with_code code_timeout q).0, refused (new_err_rejected code_timeout))

-- The calls of a query's handler and of the router that waits for it, one after the other.
pub data Call : Type 0 where
  accepts : Call
  rejects : Call
  rejects_with : ℕ → Call
  abandons : Call
  awaits : Branch → Call

unfoldable pub call : Call → IncomingQuery → IncomingQuery
call accepts q = (accept_raw q).0
call rejects q = (reject q).0
call (rejects_with code) q = (reject_with_code code q).0
call abandons q = abandon q
call (awaits b) q = (await b q).0

unfoldable pub calls : List Call → IncomingQuery → IncomingQuery
calls [] q = q
calls (c ∷ cs) q = calls cs (call c q)
