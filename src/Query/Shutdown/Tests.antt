-- ===== src/Query/Shutdown/Tests.antt =====
-- A drain with two tasks in flight, one of which runs a query.
use query_boy.Base.{ℕ, ◌+◌, ◌<◌, suc, false, [], ◌∷◌, arith}
use query_boy.Operations.{reset}
use query_boy.Query.Shutdown.{Round, drain}
use query_boy.Query.Shutdown.Ended.{IsEnded, drain-IsEnded}

abbrev busy : ℕ → Round
busy i = record {
  now = 1000 + i;
  inflight = 1 ∷ 2 ∷ [];
  active = record { task = 2; shutdown = false } ∷ [];
}

busy-advances : (i : ℕ) → (busy i).now < (busy (suc i)).now
busy-advances i = omega arith

drain-IsEnded_example : IsEnded busy (2 ∷ []) 1000 5 reset (drain busy (2 ∷ []) 6 1000 5 reset)
drain-IsEnded_example =
    drain-IsEnded busy (2 ∷ []) 6 1000 5 reset busy-advances (omega arith) (omega arith)
