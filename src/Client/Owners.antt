-- ===== src/Client/Owners.antt =====
-- client/src/job.cc, with `CoolClient::shake_hand` of client/src/client.cc: how a job finds the clients
-- that own a file and asks each what it has. What goes over the connections is an argument.
mod Tests
pub mod Greetings
pub mod Keeping
pub mod Samples
use cool_down.Prelude.{
  ℕ, String, Option, none, some, List, [], ◌∷◌, Bool, true, false, not, map, length, ◌==◌, nat_key,
  string_key, if◌then◌else◌,
}
use cool_down.Prelude.Int.{ℤ, pos}
use cool_down.Prelude.Map.{lookup, insert, contains, get_or}
use cool_down.ErrorCode.{RetCode, is_ok}
use cool_down.Outcome.{Outcome, done, throw, assertion, null_pointer, assert, or_throw, ◌>>=◌, ◌>>◌}
use cool_down.Messages.{Message, ShakeHand, FileInfo}
use cool_down.Client.SockManager.{
  SockManager, connect_client, get_idle_client_sock, return_sock, is_connected,
}
use cool_down.Client.SockManager.Lists.{SockPtr}
use cool_down.Client.JobInfo.{Bitmap, FileOwnerInfo, JobInfo}
use cool_down.Client.TrackerCalls.{Exchange, cast_reply}
use cool_down.Client.TrackerCalls as Calls
use cool_down.Client.Bitmaps.{
  Blocks, convert_bitmap_to_transport_format, conver_transport_format_bitmap,
}

abbrev pub cast_shake_hand : Message → Option ShakeHand
cast_shake_hand (Message.shake_hand m) = some m
cast_shake_hand _ = none

-- What the network gives to one owner: the connection of `connect_client`, the one that
-- `get_idle_client_sock` may open, and the exchange of the shake hand.
pub record Greeting : Type 0 where
  pub connection : SockPtr
  pub fresh : SockPtr
  pub exchange : Exchange

abbrev pub known_owners : JobInfo → String → List FileOwnerInfo
known_owners j fileid = get_or fileid [] j.owner_info_map

-- The owners that are known, or an empty entry.
abbrev pub with_entry : JobInfo → String → JobInfo
with_entry j fileid = record j {
  owner_info_map = insert fileid (known_owners j fileid) j.owner_info_map;
}

-- `Job::request_clients`; a list that comes replaces the one that was known.
unfoldable pub request_clients :
    JobInfo → SockManager → String → Exchange → Outcome (RetCode × JobInfo)
request_clients j m fileid x = do
  assert (contains fileid j.download_info.percentage_map)
  let percentage = get_or fileid (pos 0) j.download_info.percentage_map in
      let clientids = map (λ (o : FileOwnerInfo). o.clientid) (known_owners j fileid) in
      (do
        (ret, res) ←
            Calls.request_clients m j.torrent_info.torrent.tracker_address fileid percentage
              (pos 20) clientids [] x
        done (
            if not (is_ok ret)
            then (ret, with_entry j fileid)
            else if length res == 0
            then (RetCode.file_no_owner_online, with_entry j fileid)
            else (ret, record j { owner_info_map = insert fileid res j.owner_info_map })))

-- The rest of `CoolClient::shake_hand` once the socket is had.
unfoldable pub exchange_hands : Exchange → Outcome (RetCode × Option ShakeHand)
exchange_hands x =
    if not (is_ok x.sent)
    then done (x.sent, none)
    else if not (is_ok x.received)
    then done (x.received, none)
    else elim (cast_reply cast_shake_hand x.reply) [
      | none ↦ throw null_pointer
      | some peer ↦ done (RetCode.ok, some peer)
    ]

-- `CoolClient::shake_hand`. The guard returns the socket on each way out.
unfoldable pub client_shake_hand :
    SockManager → String → SockPtr → Exchange → Outcome (SockManager × RetCode × Option ShakeHand)
client_shake_hand m clientid fresh x = do
  assert (is_connected m clientid)
  (m', sock) ← get_idle_client_sock m clientid fresh
  elim sock [
    | none ↦ throw assertion
    | some s ↦ do
      (m'', _) ← return_sock m' clientid (some s)
      (ret, peer) ← exchange_hands x
      done (m'', ret, peer)
  ]

-- The first owner with the client id gets the bitmap.
unfoldable pub set_bitmap : String → Bitmap → List FileOwnerInfo → Outcome (List FileOwnerInfo)
set_bitmap clientid bits [] = throw assertion
set_bitmap clientid bits (o ∷ os) = elim (o.clientid == clientid) [
  | true ↦ done (record o { bitmap = bits } ∷ os)
  | false ↦ do os' ← set_bitmap clientid bits os; done (o ∷ os')
]

abbrev pub no_greeting : Greeting
no_greeting = record {
  connection = none;
  fresh = none;
  exchange = record { sent = RetCode.net_send_message; received = RetCode.ok; reply = none };
}

module _ (boost : Blocks) where
  -- What a reply that says that the peer has the file changes.
  unfoldable pub learn : JobInfo → String → String → FileInfo → Outcome JobInfo
  learn j fileid clientid info = do
    owners ← or_throw assertion (lookup fileid j.owner_info_map)
    let bits = conver_transport_format_bitmap boost (info.file_bit, info.file_bit_count) in
        (do
          owners' ← set_bitmap clientid bits owners
          assert (info.file_bit_count == length bits)
          done (record j { owner_info_map = insert fileid owners' j.owner_info_map }))

  -- `Job::shake_hand`; the message that it sends is `hello`.
  unfoldable pub hello : JobInfo → String → String → Outcome Message
  hello j self_id fileid = do
    assert (contains fileid j.download_info.percentage_map)
    bits ← or_throw assertion (lookup fileid j.download_info.bitmap_map)
    let (file_bit, file_bit_count) = convert_bitmap_to_transport_format boost bits in
        done (
          Message.shake_hand (record {
            client_id = self_id;
            info = record {
              file_id = fileid;
              has_file = true;
              percentage = get_or fileid (pos 0) j.download_info.percentage_map;
              file_bit = file_bit;
              file_bit_count = file_bit_count;
            };
          }))

  abbrev pub Shaken : Type 0
  Shaken = RetCode × JobInfo × SockManager

  unfoldable pub take_hand :
      JobInfo → String → String → SockManager × RetCode × Option ShakeHand → Outcome Shaken
  take_hand j fileid clientid (m, ret, none) = done (ret, j, m)
  take_hand j fileid clientid (m, ret, some peer) =
      if peer.info.has_file
      then (do j' ← learn j fileid clientid peer.info; done (RetCode.ok, j', m))
      else done (RetCode.peer_file_not_found, j, m)

  unfoldable pub shake_hand :
      JobInfo → SockManager → String → String → String → Greeting → Outcome Shaken
  shake_hand j m self_id fileid clientid g = do
    _ ← hello j self_id fileid
    out ← client_shake_hand m clientid g.fresh g.exchange
    take_hand j fileid clientid out

  -- One round of the loop over the owners: neither code is looked at.
  unfoldable pub greet :
      String
      → String
      → FileOwnerInfo
      → Greeting
      → JobInfo × SockManager
      → Outcome (JobInfo × SockManager)
  greet self_id fileid owner g (j, m) =
      let m' =
        if is_connected m owner.clientid
        then m
        else (connect_client m owner.clientid g.connection).0 in
      (do (_, j', m'') ← shake_hand j m' self_id fileid owner.clientid g; done (j', m''))

  -- An owner for whom no greeting is listed gets `no_greeting`.
  unfoldable pub greet_all :
      String
      → String
      → List FileOwnerInfo
      → List Greeting
      → JobInfo × SockManager
      → Outcome (JobInfo × SockManager)
  greet_all self_id fileid [] gs s = done s
  greet_all self_id fileid (o ∷ os) [] s = do
    s' ← greet self_id fileid o no_greeting s
    greet_all self_id fileid os [] s'
  greet_all self_id fileid (o ∷ os) (g ∷ gs) s = do
    s' ← greet self_id fileid o g s
    greet_all self_id fileid os gs s'

  unfoldable pub reinit_file_owner_info :
      String
      → String
      → Exchange
      → List Greeting
      → JobInfo × SockManager
      → Outcome (JobInfo × SockManager)
  reinit_file_owner_info self_id fileid x gs (j, m) = do
    (ret, j') ← request_clients j m fileid x
    if is_ok ret then greet_all self_id fileid (known_owners j' fileid) gs (j', m) else done (j', m)
