-- ===== src/Client/SockManager/Tests.antt =====
-- Runs of the socket manager, and its theorems at concrete tables.
use cool_down.Prelude.{◌≢◌, refl, none, some, List, [], ◌∷◌, arith, string_key}
use cool_down.Prelude.Map.{lookup, insert, member, add}
use cool_down.Outcome.{Returns, WhenDone}
use cool_down.Client.SockManager.Lists.{idle, used, take_idle, give_back, same_sock}
use cool_down.Client.SockManager.{
  SockManager, empty, connect_client, get_idle_client_sock, return_sock, over_limit, or_empty,
  get_from, Call, connect, get, give, step, run,
}
use cool_down.Client.SockManager.Invariant.{IsValid, run-empty-IsValid}
use cool_down.Client.SockManager.Lending.{get_exclusive}

-- Two sockets to one peer, the first in use.
abbrev pair : SockManager
pair = record {
  server_socks = [];
  client_socks = ("peer", (some 1, used) ∷ (some 2, idle) ∷ []) ∷ [];
  conditions = "peer" ∷ [];
}

abbrev pair_lent : SockManager
pair_lent = record pair { client_socks = ("peer", (some 1, used) ∷ (some 2, used) ∷ []) ∷ [] }

abbrev calls : List Call
calls = give "peer" (some 1) ∷ get "peer" (some 3) ∷ connect "other" (some 4) ∷ []

abbrev pair_later : SockManager
pair_later = record {
  server_socks = [];
  client_socks =
      ("other", (some 4, idle) ∷ []) ∷ ("peer", (some 1, used) ∷ (some 2, used) ∷ []) ∷ [];
  conditions = "other" ∷ "peer" ∷ [];
}

run-empty-IsValid_example : Returns IsValid (run empty (connect "peer" (some 1) ∷ calls))
run-empty-IsValid_example =
    run-empty-IsValid (connect "peer" (some 1) ∷ calls) (tt, (tt, (tt, (tt, tt))))

get_exclusive_example : WhenDone (λ r. r.1 ≢ some 2) (get_idle_client_sock pair_later "peer" none)
unfolding run step get_idle_client_sock get_from take_idle lookup insert return_sock give_back
    same_sock connect_client member add over_limit or_empty
get_exclusive_example =
    get_exclusive pair pair_lent pair_later "peer" 2 (some 9) none calls (ground arith) refl
      (ground arith) refl (ground arith)
