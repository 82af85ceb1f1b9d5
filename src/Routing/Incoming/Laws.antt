-- ===== src/Routing/Incoming/Laws.antt =====
-- Sequences of calls on an incoming query (lib/routing/incoming_query.go).
use astral_go.Base.{
  ℕ, ◌≡◌, refl, ap, ◌∙◌, ◌⊎◌, inl, inr, Bool, true, false, Option, none, some, List, [], ◌∷◌, ◌++◌,
  ◌==◌, if◌then◌else◌, Bool-cases,
}
use astral_go.Routing.Query.{rejected, new_err_rejected, default_reject_code}
use astral_go.Routing.Incoming.{
  code_timeout, Response, accepted, refused, IncomingQuery, new_incoming_query, send, accept_raw,
  reject, reject_with_code, abandon, answered, canceled, timed_out, await, Call, accepts, rejects,
  rejects_with, abandons, awaits, call, calls,
}

-- The response that a call means to send.
unfoldable pub intent : Call → Option Response
intent accepts = some accepted
intent rejects = some (refused (rejected default_reject_code))
intent (rejects_with code) = some (refused (rejected (if code == 0 then 1 else code)))
intent abandons = none
intent (awaits (answered r)) = none
intent (awaits canceled) = some (refused (rejected default_reject_code))
intent (awaits timed_out) = some (refused (rejected code_timeout))

-- The first response that a list of calls means to send, alone; none where there is no such call.
unfoldable pub first_intent : List Call → List Response
first_intent [] = []
first_intent (c ∷ cs) = elim (intent c) [ some r ↦ r ∷ [] | none ↦ first_intent cs ]

-- A query with these two fields.
abbrev with_fields : Bool → Bool → IncomingQuery → IncomingQuery
with_fields resolved reader q = record q { resolved = resolved; reader = reader }

call_resolved :
    (c : Call) (reader : Bool) (q : IncomingQuery)
    → ((call c (with_fields true reader q)).responses ≡ q.responses)
      × ((call c (with_fields true reader q)).resolved ≡ true)
unfolding call accept_raw reject reject_with_code abandon await send
call_resolved accepts reader q = (refl, refl)
call_resolved rejects reader q = (refl, refl)
call_resolved (rejects_with code) reader q = (refl, refl)
call_resolved abandons true q = (refl, refl)
call_resolved abandons false q = (refl, refl)
call_resolved (awaits (answered r)) reader q = (refl, refl)
call_resolved (awaits canceled) reader q = (refl, refl)
call_resolved (awaits timed_out) reader q = (refl, refl)

calls_resolved :
    (cs : List Call) (q : IncomingQuery)
    → q.resolved ≡ true
    → ((calls cs q).responses ≡ q.responses) × ((calls cs q).resolved ≡ true)
unfolding calls
calls_resolved [] q h = (refl, h)
calls_resolved (c ∷ cs) q h =
    let same : q ≡ with_fields true q.reader q = ap (λ b. with_fields b q.reader q) h in
    let (responses, resolved) = call_resolved c q.reader q in
    let (later, still) =
      calls_resolved cs (call c q) (ap (λ x. (call c x).resolved) same ∙ resolved) in
    (later ∙ ap (λ x. (call c x).responses) same ∙ responses, still)

new_code :
    (code : ℕ)
    → new_err_rejected (if code == 0 then 1 else code) ≡ rejected (if code == 0 then 1 else code)
unfolding new_err_rejected
new_code code = elim (Bool-cases (code == 0)) [ inl e ↦ rw e refl | inr e ↦ rw (e, e) refl ]

-- What one call does to a query that is not resolved.
call_fresh :
    (c : Call) (reader : Bool) (q : IncomingQuery)
    → ((intent c ≡ none)
        × ((call c (with_fields false reader q)).responses ≡ q.responses)
        × ((call c (with_fields false reader q)).resolved ≡ false))
      ⊎ ((r : Response) × (intent c ≡ some r)
          × ((call c (with_fields false reader q)).responses ≡ q.responses ++ (r ∷ []))
          × ((call c (with_fields false reader q)).resolved ≡ true))
unfolding call accept_raw reject reject_with_code abandon await send intent
call_fresh accepts reader q = inr (accepted, refl, refl, refl)
call_fresh rejects reader q = inr (refused (rejected default_reject_code), refl, refl, refl)
call_fresh (rejects_with code) reader q = inr (
  refused (rejected (if code == 0 then 1 else code)),
  refl,
  ap (λ e. q.responses ++ (refused e ∷ [])) (new_code code),
  refl,
)
call_fresh abandons true q = inl (refl, refl, refl)
call_fresh abandons false q = inl (refl, refl, refl)
call_fresh (awaits (answered r)) reader q = inl (refl, refl, refl)
call_fresh (awaits canceled) reader q =
    inr (refused (rejected default_reject_code), refl, refl, refl)
call_fresh (awaits timed_out) reader q = inr (
  refused (rejected code_timeout),
  refl,
  ap (λ e. q.responses ++ (refused e ∷ [])) (new_code code_timeout),
  refl,
)

calls_fresh :
    (cs : List Call) (q : IncomingQuery)
    → q.resolved ≡ false
    → q.responses ≡ []
    → (calls cs q).responses ≡ first_intent cs
unfolding calls first_intent
calls_fresh [] q h n = n
calls_fresh (c ∷ cs) q h n =
    let same : q ≡ with_fields false q.reader q = ap (λ b. with_fields b q.reader q) h in
    elim (call_fresh c q.reader q) [
      | inl (quiet, responses, resolved) ↦
          rw (quiet, first_intent)
            (calls_fresh cs (call c q) (ap (λ x. (call c x).resolved) same ∙ resolved)
              (ap (λ x. (call c x).responses) same ∙ responses ∙ n))
      | inr (r, says, responses, resolved) ↦
          rw (says, first_intent)
            ((calls_resolved cs (call c q) (ap (λ x. (call c x).resolved) same ∙ resolved)).0
              ∙ ap (λ x. (call c x).responses) same
              ∙ responses
              ∙ ap (λ l. l ++ (r ∷ [])) n)
    ]

-- Whatever the calls and the branches that await takes, in whatever order: the response of the
-- first call that resolves the query is the only one that is ever sent.
pub calls-responses : (cs : List Call) → (calls cs new_incoming_query).responses ≡ first_intent cs
unfolding new_incoming_query
calls-responses cs = calls_fresh cs new_incoming_query refl refl
