-- ===== src/Examples/Routing.antt =====
-- Routers and queries on small inputs.
use astral_go.Base.{ℕ, ◌≡◌, ◌≤◌, refl, inl, inr, true, List, [], ◌∷◌, codes, str_comparable, arith}
use astral_go.Routing.Query.{Query, rejected, route_not_found, other_error, is_rejected}
use astral_go.Routing.Priority
use astral_go.Routing.Priority.Laws as PriorityLaws
use astral_go.Routing.Incoming.{Call, accepts, awaits, timed_out, calls, new_incoming_query}
use astral_go.Routing.Incoming.Laws.{first_intent, calls-responses}

abbrev query : Query
query = record {
  nonce = 1;
  caller = codes "c";
  target = codes "t";
  query_string = codes "fs.read?n=1";
  extra = [];
}

-- A router that fails and one that rejects.
abbrev failing : Priority.Entry ℕ
failing = record { router = λ q. inr (other_error []); prio = 1 }

abbrev rejecting : Priority.Entry ℕ
rejecting = record { router = λ q. inr (rejected 1); prio = 2 }

route_query-best_example :
    (e : Priority.Entry ℕ) × PriorityLaws.Has e (failing ∷ rejecting ∷ [])
    × (PriorityLaws.decides (e.router query) ≡ true)
    × (e.prio ≤ rejecting.prio)
    × (Priority.route_query (failing ∷ rejecting ∷ []) query ≡ e.router query)
unfolding PriorityLaws.Has PriorityLaws.IsSorted PriorityLaws.decides is_rejected
route_query-best_example =
    PriorityLaws.route_query-best (failing ∷ rejecting ∷ []) query rejecting
      ((omega arith, tt), (tt, tt)) (inr (inl refl)) refl

route_query-not_found_example : Priority.route_query (failing ∷ []) query ≡ inr route_not_found
unfolding PriorityLaws.decides is_rejected
route_query-not_found_example = PriorityLaws.route_query-not_found (failing ∷ []) query (refl, tt)

abbrev late_accept : List Call
late_accept = awaits timed_out ∷ accepts ∷ []

calls-responses_example :
    (calls late_accept new_incoming_query).responses ≡ first_intent late_accept
calls-responses_example = calls-responses late_accept
