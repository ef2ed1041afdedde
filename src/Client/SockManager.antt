-- ===== src/Client/SockManager.antt =====
-- client/include/local_sock_manager.h and client/src/local_sock_manager.cc. A socket is known by its
-- identity, since the source compares the pointers; `none` is the null pointer. What
-- `make_connection` brings is an argument. The sockets' addresses and the locks are left out.
pub mod Lists
pub mod Invariant
pub mod Holding
pub mod Lending
pub mod Tests
use cool_down.Prelude.{
  ℕ, String, Option, none, some, List, [], ◌∷◌, ◌++◌, Bool, true, false, not, length, ltb, ◌==◌,
  if◌then◌else◌, string_key, nat_key,
}
use cool_down.Prelude.Map.{Map, lookup, insert, erase, contains, member, add}
use cool_down.ErrorCode.{RetCode}
use cool_down.Outcome.{Outcome, done, throw, null_pointer, assertion, assert, ◌>>=◌, ◌>>◌}
use Lists.{SockPtr, SockStatus, SockList, idle, used, take_idle, give_back}

pub record SockManager : Type 0 where
  pub server_socks : Map String ℕ
  pub client_socks : Map String SockList
  -- the clients that have a condition variable
  pub conditions : List String

abbrev pub max_connection_per_client : ℕ
max_connection_per_client = 10

abbrev pub empty : SockManager
empty = record { server_socks = []; client_socks = []; conditions = [] }

-- The connection, if it is made, comes with the text of its peer address.
unfoldable pub connect_tracker : SockManager → Option (ℕ × String) → SockManager × RetCode
connect_tracker m none = (m, RetCode.net_connect)
connect_tracker m (some (sock, address)) =
    (record m { server_socks = insert address sock m.server_socks }, RetCode.ok)

unfoldable pub get_tracker_sock : SockManager → String → SockPtr
get_tracker_sock m address = lookup address m.server_socks

-- `peer_address` is the address of the socket that the table holds.
pub logout_tracker : SockManager → String → (ℕ → String) → SockManager × RetCode
unfolding get_tracker_sock
logout_tracker m address peer_address = elim (get_tracker_sock m address) [
  | none ↦ (m, RetCode.net_not_connected)
  | some sock ↦ (record m { server_socks = erase (peer_address sock) m.server_socks }, RetCode.ok)
]

pub over_limit : Option SockList → Bool
over_limit none = false
over_limit (some l) = ltb max_connection_per_client (length l)

pub or_empty : Option SockList → SockList
or_empty none = []
or_empty (some l) = l

unfoldable pub connect_client : SockManager → String → SockPtr → SockManager × RetCode
unfolding over_limit or_empty
connect_client m clientid none =
    if over_limit (lookup clientid m.client_socks)
    then (m, RetCode.net_connection_limit)
    else (m, RetCode.net_connect)
connect_client m clientid (some sock) =
    if over_limit (lookup clientid m.client_socks) then (m, RetCode.net_connection_limit) else (
      record m {
        client_socks =
            insert clientid (or_empty (lookup clientid m.client_socks) ++ (some sock, idle) ∷ [])
              m.client_socks;
        conditions =
            if member clientid m.conditions then m.conditions else add clientid m.conditions;
      },
      RetCode.ok,
    )

pub reach_connection_limit : SockManager → String → Bool
reach_connection_limit m clientid = elim (lookup clientid m.client_socks) [
  | none ↦ false
  | some l ↦ not (ltb (length l) max_connection_per_client)
]

-- One more connection to the peer of the first socket in the list, which must not be null.
pub open_another : SockManager → String → SockPtr → SockList → Outcome (SockManager × SockPtr)
open_another m clientid fresh [] = done (m, none)
open_another m clientid fresh ((none, status) ∷ l) = throw null_pointer
open_another m clientid fresh ((some sock, status) ∷ l) = done (
  record m {
    client_socks = insert clientid (((some sock, status) ∷ l) ++ (fresh, used) ∷ []) m.client_socks;
  },
  fresh,
)

unfoldable pub get_from :
    SockManager → String → SockPtr → SockList → Outcome (SockManager × SockPtr)
unfolding take_idle open_another
get_from m clientid fresh l = elim (take_idle l) [
  | some (sock, rest) ↦ done (record m { client_socks = insert clientid rest m.client_socks }, sock)
  | none ↦
      if ltb max_connection_per_client (length l)
      then done (m, none)
      else open_another m clientid fresh l
]

unfoldable pub get_idle_client_sock :
    SockManager → String → SockPtr → Outcome (SockManager × SockPtr)
unfolding get_from
get_idle_client_sock m clientid fresh = elim (lookup clientid m.client_socks) [
  | none ↦ done (m, none)
  | some l ↦ get_from m clientid fresh l
]

-- The log takes the address of a socket that is not in the list.
abbrev pub not_listed : SockManager → SockPtr → Outcome (SockManager × Bool)
not_listed m none = throw null_pointer
not_listed m (some s) = done (m, false)

-- The result says whether the condition of the client was signalled.
unfoldable pub return_sock : SockManager → String → SockPtr → Outcome (SockManager × Bool)
unfolding give_back
return_sock m clientid sock = elim (lookup clientid m.client_socks) [
  | none ↦ done (m, false)
  | some l ↦ elim (give_back sock l) [
    | none ↦ not_listed m sock
    | some rest ↦ do
      assert (member clientid m.conditions)
      done (record m { client_socks = insert clientid rest m.client_socks }, true)
  ]
]

-- The condition of a client is named by the client.
pub get_sock_idel_condition : SockManager → String → Outcome String
get_sock_idel_condition m clientid = do assert (member clientid m.conditions); done clientid

-- In tenths: the source divides by `MAX_CONNECTION_PER_CLIENT` in floating point, and 100 is the answer
-- for a client without a list.
pub get_payload_percentage : SockManager → String → ℕ
get_payload_percentage m clientid = elim (lookup clientid m.client_socks) [
  | none ↦ 1000
  | some l ↦ length l
]

unfoldable pub is_connected : SockManager → String → Bool
is_connected m clientid = contains clientid m.client_socks

-- The calls that a client of the manager makes on the table of client sockets.
pub data Call : Type 0 where
  connect get give : String → SockPtr → Call

-- The state after a call, and the socket that a `get` hands out.
pub step : SockManager → Call → Outcome (SockManager × SockPtr)
step m (connect clientid fresh) = done ((connect_client m clientid fresh).0, none)
step m (get clientid fresh) = get_idle_client_sock m clientid fresh
step m (give clientid sock) = do (m', _) ← return_sock m clientid sock; done (m', none)

pub run : SockManager → List Call → Outcome SockManager
run m [] = done m
run m (c ∷ cs) = do (m', _) ← step m c; run m' cs
