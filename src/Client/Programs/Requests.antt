-- ===== src/Client/Programs/Requests.antt =====
-- What the programs ask of the tracker.
use mathlib.Core.List.{append-nil}
use mathlib.Core.Path.{subst}
use cool_down.Prelude.{
  ap, map, ◌∙◌, Option, sym, ℕ, ◌≡◌, refl, String, some, none, List, [], ◌∷◌, ◌++◌, Bool, true,
  false, string_key, inl, inr, Bool-cases, Option-cases, if◌then◌else◌, arith,
}
use cool_down.Prelude.Int.{ℤ}
use cool_down.Prelude.Map.{lookup, insert}
use cool_down.ErrorCode.{RetCode, is_ok}
use cool_down.Outcome.{Outcome, done, throw, Outcome-cases}
use cool_down.Messages.{Message, login, logout}
use cool_down.Client.LocalFiles.{FileSystem}
use cool_down.Client.SockManager.{SockManager, empty, connect_tracker, get_tracker_sock}
use cool_down.Client.Jobs.{Jobs, no_jobs, has_torrent, start_job, add_new_download_job}
use cool_down.Client.JobInfo.{identity}
use cool_down.Client.Torrent.{Torrent}
use cool_down.Client.TrackerCalls.{
  Attempt, Sent, went, send_raises, receive_raises, ask, login_tracker, logout_from_tracker,
  call_tracker,
}
use cool_down.Client.Bitmaps.{Blocks}
use cool_down.Client.History.{parse_torrent}
use cool_down.Client.Verification.{DigestEngine}
use cool_down.Client.Programs.Setting.{
  Exit, exit_ok, exit_tempfail, exit_code, Ended, tracker_address, downloader, Surroundings,
}
use cool_down.Client.Programs.{
  log_out, download, begin_download, download_job, start_added, joined, main, reload,
}

abbrev pub exits_ok : Outcome (Exit × Jobs) → Bool
exits_ok (done (exit_ok, c)) = true
exits_ok _ = false

abbrev pub login_of : String → ℤ → Message
login_of clientid port =
    login (record { client_id = clientid; login_ip = none; message_port = port })

abbrev pub logout_of : String → Message
logout_of clientid = logout (record { client_id = clientid })

-- The request goes over and is sent as a whole, and no exception leaves the call.
abbrev pub Delivers : Attempt → Type 0
Delivers (went x) = is_ok x.sent ≡ true
Delivers _ = ⊥

pub ask-Delivers :
    (msg : Message) (x : Attempt)
    → Delivers x
    → (ret : RetCode) × (ask msg x ≡ (some msg, done ret))
unfolding ask
ask-Delivers msg (went x) d = (call_tracker x, rw (ask, d) refl)
ask-Delivers msg (send_raises e) d = elim d [ ]
ask-Delivers msg (receive_raises e) d = elim d [ ]

-- The program has sent the given requests, and then a logout exactly when its code is that of a success.
abbrev pub IsBracketed : String → List Message → Ended → Type 0
IsBracketed clientid before (requests, out) =
    requests ≡ before ++ (if exits_ok out then logout_of clientid ∷ [] else [])

abbrev pub with_sock : ℕ → SockManager
with_sock socket = record empty { server_socks = (tracker_address, socket) ∷ [] }

login_connected :
    (clientid : String) (port : ℤ) (socket : ℕ) (x : Attempt)
    → login_tracker empty clientid port (some (socket, tracker_address)) tracker_address x
      ≡ (with_sock socket, ask (login_of clientid port) x)
unfolding login_tracker connect_tracker get_tracker_sock insert lookup is_ok
login_connected clientid port socket x = refl

either_ends :
    {o p : Option (Outcome Jobs)} (b : Bool)
    → ((out : Outcome Jobs) × (o ≡ some out))
    → ((out : Outcome Jobs) × (p ≡ some out))
    → (out : Outcome Jobs) × ((if b then o else p) ≡ some out)
either_ends true o p = o
either_ends false o p = p

module _ (boost : Blocks) (sha : DigestEngine) (fs : FileSystem)
    (around : Surroundings sha fs) where
  open fs use {Disk}
  open around use {
    connected, local_port, at_login, at_logout, torrents, all_joined, has_thread, up, down,
  }

  pub logged_in :
      (clientid : String) (port : ℤ) (socket : ℕ)
      → connected ≡ some (socket, tracker_address)
      → login_tracker empty clientid port connected tracker_address at_login
        ≡ (with_sock socket, ask (login_of clientid port) at_login)
  logged_in clientid port socket c =
      ap (λ (k : Option (ℕ × String)). login_tracker empty clientid port k tracker_address at_login)
        c
      ∙ login_connected clientid port socket at_login

  logout_sent :
      (socket : ℕ) (clientid : String)
      → Delivers at_logout
      → (ret : RetCode) × (logout_from_tracker (with_sock socket) clientid tracker_address at_logout
          ≡ (some (logout_of clientid), done ret))
  unfolding logout_from_tracker get_tracker_sock lookup
  logout_sent socket clientid d = ask-Delivers (logout_of clientid) at_logout d

  pub log_out_done :
      (socket : ℕ) (clientid : String) (before : List Message) (c : Jobs)
      → Delivers at_logout
      → log_out boost sha fs around (with_sock socket) clientid before (done c)
        ≡ (before ++ logout_of clientid ∷ [], done (exit_ok, c))
  log_out_done socket clientid before c d =
      let (ret, e) = logout_sent socket clientid d in rw e refl

  log_out-IsBracketed :
      (socket : ℕ) (clientid : String) (before : List Message) (o : Outcome Jobs)
      → Delivers at_logout
      → IsBracketed clientid before
          (log_out boost sha fs around (with_sock socket) clientid before o)
  log_out-IsBracketed socket clientid before (throw e) d = sym (append-nil before)
  log_out-IsBracketed socket clientid before (done c) d =
      subst (IsBracketed clientid before) (sym (log_out_done socket clientid before c d)) refl

  joined-eq-some :
      (c : Jobs) (o : Outcome RetCode)
      → all_joined ≡ true
      → (out : Outcome Jobs) × (joined boost sha fs around c o ≡ some out)
  unfolding joined
  joined-eq-some c (throw e) j = (throw e, refl)
  joined-eq-some c (done ret) j = (done c, ground arith)

  start_added-eq-some :
      (c : Jobs) (added : RetCode × Option ℕ)
      → all_joined ≡ true
      → (out : Outcome Jobs) × (start_added boost sha fs around c added ≡ some out)
  unfolding start_added
  start_added-eq-some c (ret, none) j = (done c, refl)
  start_added-eq-some c (ret, some handle) j = elim (Bool-cases (is_ok ret)) [
    | inl ok ↦
        let (out, e) =
          joined-eq-some (start_job has_thread c handle).0 (start_job has_thread c handle).1 j in
        (out, rw (start_added, ok) e)
    | inr bad ↦ (done c, rw (start_added, bad) refl)
  ]

  download_job-eq-some :
      (c : Jobs) (path : String) (torrent : Torrent) (disk' : Disk)
      → all_joined ≡ true
      → (out : Outcome Jobs) × (download_job boost sha fs around c path torrent disk' ≡ some out)
  unfolding download_job
  download_job-eq-some c path torrent disk' j =
      let (c', disk'', added) =
        add_new_download_job fs c path torrent (map identity torrent.files) "/tmp/" up down disk' in
      either_ends (has_torrent c torrent.torrent_id) (done c, refl) (start_added-eq-some c' added j)

  download-IsBracketed :
      (socket : ℕ) (clientid path : String) (before : List Message)
      → Delivers at_logout
      → all_joined ≡ true
      → (e : Ended) × (download boost sha fs around (with_sock socket) clientid before path
          ≡ some e)
        × IsBracketed clientid before e
  unfolding download
  download-IsBracketed socket clientid path before d j =
      elim (Outcome-cases (reload boost sha fs around "/tmp/download.history")) [
        | inr (e, r) ↦ ((before, throw e), rw (download, r) refl, sym (append-nil before))
        | inl ((c, disk', ret), r) ↦
            let parsing = parse_torrent boost fs (torrents path) in
            elim (Option-cases parsing.1) [
              | inl p ↦ (
                (before, done (exit_code parsing.0, c)),
                rw (download, r, p) refl,
                sym (append-nil before),
              )
              | inr (torrent, p) ↦
                  let (out, e) = download_job-eq-some c path torrent disk' j in
                  (
                    log_out boost sha fs around (with_sock socket) clientid before out,
                    rw (download, r, p, e) refl,
                    log_out-IsBracketed socket clientid before out d,
                  )
            ]
      ]

  -- The tracker can be reached, the login and the logout go over to it without an exception, whatever it
  -- answers, and if a job is started, the threads of the jobs end. Then the downloading program ends,
  -- has sent its login first, and has sent its logout, once and last, exactly when its code is that of a
  -- success.
  pub download_requests :
      (clientid path : String) (socket : ℕ)
      → connected ≡ some (socket, tracker_address)
      → Delivers at_login
      → Delivers at_logout
      → all_joined ≡ true
      → (e : Ended) × (main boost sha fs around false clientid (path ∷ []) ≡ some e)
        × IsBracketed downloader (login_of downloader local_port ∷ []) e
  unfolding main begin_download
  download_requests clientid path socket c login_sent logout_delivered j =
      let logged =
        ap (begin_download boost sha fs around path) (logged_in downloader local_port socket c) in
      let (ret, sent) = ask-Delivers (login_of downloader local_port) at_login login_sent in
      let answered =
        logged
        ∙ ap (λ (s : Sent). begin_download boost sha fs around path (with_sock socket, s)) sent in
      let (e, ended, bracketed) =
        download-IsBracketed socket downloader path (login_of downloader local_port ∷ [])
          logout_delivered j in
      elim (Bool-cases (is_ok ret)) [
        | inl ok ↦ (e, answered ∙ rw (begin_download, ok) ended, bracketed)
        | inr bad ↦ (
          (login_of downloader local_port ∷ [], done (exit_tempfail, no_jobs)),
          answered ∙ rw (begin_download, bad) refl,
          refl,
        )
      ]
