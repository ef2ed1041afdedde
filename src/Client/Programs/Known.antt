-- ===== src/Client/Programs/Known.antt =====
-- What the tracker knows while the uploading program waits.
use cool_down.Prelude.{
  ◌≡◌, refl, ap, ◌∙◌, ℕ, String, some, none, List, [], ◌∷◌, ◌++◌, map, Bool, true, false, All,
  string_key, nat_key, arith,
}
use cool_down.Prelude.Int.{pos}
use cool_down.Prelude.Map.{beq_refl, member}
use cool_down.Messages.{Message, payload_code}
use cool_down.ErrorCode.{RetCode}
use cool_down.Outcome.{Outcome, done, ◌>>=◌}
use mathlib.Core.Option.{map as option_map}
use cool_down.Client.LocalFiles.{FileSystem}
use cool_down.Client.Bitmaps.{Blocks}
use cool_down.Client.Verification.{DigestEngine}
use cool_down.Client.MakeTorrent.{make_torrent}
use cool_down.Client.MakeTorrent.Head.{make_torrent_tracker}
use cool_down.Client.History.{parse_torrent, reload_job_history}
use cool_down.Client.Torrent.{FileEntry, Torrent}
use cool_down.Client.Jobs.{Jobs, no_jobs, add_new_upload_job, published, has_torrent}
use cool_down.Client.TrackerCalls.{Sent}
use cool_down.Client.Programs.Setting.{Surroundings, exit_ok, head, tracker_address}
use cool_down.Client.Programs.{
  upload_job, publishing, publish_all, resumed, log_out, listen, offer, upload, begin_upload, main,
}
use cool_down.Client.Programs.Requests.{
  with_sock, login_of, logout_of, logged_in, log_out_done, Delivers, ask-Delivers,
}
use cool_down.Client.Programs.Publishing.{
  each_file, arriving, publication, publish_all_lem, changes, serve-changes, still_online,
  now_complete, published-member,
}
use cool_down.Tracker.Database.{Session}
use cool_down.Tracker.Handler.{Handler}
use cool_down.Tracker.Directory.{Directory, IsRelational}
use cool_down.Tracker.Directory.Follows.{serve, serve_follows, IsPlainEvent}

-- The client is online and has the whole of each file of the torrent.
abbrev pub IsKnown : String → Torrent → Directory → Type 0
IsKnown clientid torrent d =
    (d.online clientid ≡ true)
    × All (λ (f : FileEntry). d.progress f.check_sum clientid ≡ some (pos 100)) torrent.files

-- What the uploading program asks for before it logs out.
abbrev pub requests_for : String → Torrent → List Message
requests_for clientid torrent =
    login_of clientid (pos 9024) ∷ map (publication clientid) (published torrent.files [])

-- None of them is a progress report.
requests_plain :
    (h : Handler) (at clientid : String) (torrent : Torrent)
    → All IsPlainEvent (map (arriving h at) (requests_for clientid torrent))
requests_plain h at clientid torrent = (tt, go (published torrent.files []))
  where
    go : (fs : List String) → All IsPlainEvent (map (arriving h at) (map (publication clientid) fs))
    go [] = tt
    go (f ∷ fs) = (tt, go fs)

module _ (boost : Blocks) (sha : DigestEngine) (fs : FileSystem) (around : Surroundings sha fs)
    (mysql : Session) (view : mysql.Db → Directory) (laws : IsRelational mysql view) where
  open around use {
    up, down, can_listen, disk, connected, histories, resources, parent, now, bytes_of, opened,
    serialized, engine, rewritten, at_login, at_publish, at_logout, terminated,
  }

  publishing_lem :
      (socket : ℕ) (clientid : String) (torrent : Torrent)
      → torrent.tracker_address ≡ tracker_address
      → All (λ (f : String). Delivers (at_publish f)) (published torrent.files [])
      → publishing boost sha fs around (with_sock socket) clientid no_jobs torrent
        ≡ (map (publication clientid) (published torrent.files []), done tt)
  unfolding publishing has_torrent member
  publishing_lem socket clientid torrent named d =
      ap
        (λ (a : String).
          publish_all (with_sock socket) clientid a at_publish (published torrent.files []))
        named
      ∙ publish_all_lem socket clientid at_publish (published torrent.files []) d

  upload_job_lem :
      (socket : ℕ) (clientid path top_path : String) (torrent : Torrent)
      → torrent.tracker_address ≡ tracker_address
      → All (λ (f : String). Delivers (at_publish f)) (published torrent.files [])
      → (c : Jobs) × (upload_job boost sha fs around
            (with_sock socket)
            clientid
            no_jobs
            path
            top_path
            torrent
            disk
          ≡ (map (publication clientid) (published torrent.files []), done c))
  unfolding upload_job
  upload_job_lem socket clientid path top_path torrent named d =
      let (c, disk', added) = add_new_upload_job fs no_jobs path top_path torrent up down disk in
      let made = resumed boost sha fs around c added in
      (
        made,
        ap (λ (p : List Message × Outcome (Unit {0})). (p.0, (p.1 >>= λ _. done made)))
            (publishing_lem socket clientid torrent named d),
      )

  listen_returns :
      (c : Jobs)
      → can_listen ≡ true
      → terminated ≡ true
      → listen boost sha fs around (done c) ≡ some (done c)
  unfolding listen
  listen_returns c free ended = ground arith

  offered :
      (clientid resource_path path : String) (socket : ℕ) (torrent : Torrent)
      → rewritten (some torrent) ≡ some (some torrent)
      → torrent.tracker_address ≡ tracker_address
      → All (λ (f : String). Delivers (at_publish f)) (published torrent.files [])
      → Delivers at_logout
      → can_listen ≡ true
      → terminated ≡ true
      → (c : Jobs) × (offer boost sha fs around
            (with_sock socket)
            clientid
            (login_of clientid (pos 9024) ∷ [])
            resource_path
            path
            (no_jobs, disk)
            (some torrent)
          ≡ some (requests_for clientid torrent ++ logout_of clientid ∷ [], done (exit_ok, c)))
  unfolding offer parse_torrent
  offered clientid resource_path path socket torrent kept named ps lo free ended =
      let (c, job) = upload_job_lem socket clientid path (parent resource_path) torrent named ps in
      (
        c,
        rw (offer, kept)
            (ap
                (λ (p : List Message × Outcome Jobs).
                  option_map
                    (log_out boost sha fs around (with_sock socket) clientid
                      (login_of clientid (pos 9024) ∷ p.0))
                    (listen boost sha fs around p.1))
                job
              ∙ ap
                  (option_map (
                    log_out boost sha fs around (with_sock socket) clientid
                      (requests_for clientid torrent)))
                  (listen_returns c free ended)
              ∙ ap some (
                  log_out_done boost sha fs around socket clientid (requests_for clientid torrent) c
                    lo)),
      )

  upload_requests :
      (clientid resource_path path : String) (socket : ℕ) (ret : RetCode) (torrent : Torrent)
      → connected ≡ some (socket, tracker_address)
      → histories "/tmp/upload.history" ≡ none
      → make_torrent sha
          (resources resource_path).0
          (resources resource_path).1
          (parent resource_path)
          1048576
          (head clientid now)
          bytes_of
          opened
          serialized
          engine
        ≡ some (done (ret, some torrent))
      → rewritten (some torrent) ≡ some (some torrent)
      → Delivers at_login
      → All (λ (f : String). Delivers (at_publish f)) (published torrent.files [])
      → Delivers at_logout
      → can_listen ≡ true
      → terminated ≡ true
      → (c : Jobs) × (main boost sha fs around false clientid (resource_path ∷ path ∷ [])
          ≡ some (requests_for clientid torrent ++ logout_of clientid ∷ [], done (exit_ok, c)))
  unfolding main reload_job_history
  upload_requests clientid resource_path path socket ret torrent reached new made kept li ps lo free
        ended =
      let logged =
        ap (begin_upload boost sha fs around clientid resource_path path)
          (logged_in boost sha fs around clientid (pos 9024) socket reached) in
      let (code, sent) = ask-Delivers (login_of clientid (pos 9024)) at_login li in
      let named =
        make_torrent_tracker sha (resources resource_path).0 (resources resource_path).1
          (parent resource_path) 1048576 (head clientid now) bytes_of opened serialized engine ret
          torrent made in
      let (c, goes_on) =
        offered clientid resource_path path socket torrent kept named ps lo free ended in
      (
        c,
        logged
            ∙ ap
                (λ (s : Sent).
                  begin_upload boost sha fs around clientid resource_path path
                    (with_sock socket, s))
                sent
            ∙ rw (begin_upload, upload, new, made) goes_on,
      )

  known :
      (clientid : String) (torrent : Torrent) (h : Handler) (at : String) (db : mysql.Db)
      → All
          (λ (b : Bool). b ≡ true)
          (serve mysql (map (arriving h at) (requests_for clientid torrent)) db).1
      → IsKnown clientid torrent
          (view (serve mysql (map (arriving h at) (requests_for clientid torrent)) db).0)
  unfolding changes payload_code member
  known clientid torrent h at db g =
      let es = map (arriving h at) (requests_for clientid torrent) in
      let after : view (serve mysql es db).0 ≡ changes es (view db) =
        serve_follows mysql view laws es db (requests_plain h at clientid torrent)
        ∙ serve-changes mysql es db (view db) g in
      rw after (
        still_online h at clientid (published torrent.files []) _ clientid
            ∙ ground (arith, beq_refl clientid),
        each_file (λ k. (changes es (view db)).progress k clientid ≡ some (pos 100)) torrent.files
            (λ k m.
              now_complete h at clientid (published torrent.files []) _ k
                (published-member torrent.files [] k m refl)),
      )

  -- The tracker can be reached, there is no history, MakeTorrent makes a torrent, it is read back as it was
  -- made, the login, every publication and the logout go over without an exception, whatever the tracker
  -- answers, the port is free, and the process is asked to end at some time. Then the uploading program
  -- ends with the code of a success, and has sent its login, the publication of each file and its
  -- logout. If the statements of the tracker keep their laws, and it grants the requests before the
  -- last one, then, whatever it knew, it has by then the client as online and as an owner of the
  -- whole of each file of the torrent.
  pub upload-IsKnown :
      (clientid resource_path path : String) (socket : ℕ) (ret : RetCode) (torrent : Torrent)
      (h : Handler) (at : String) (db : mysql.Db)
      → connected ≡ some (socket, tracker_address)
      → histories "/tmp/upload.history" ≡ none
      → make_torrent sha
          (resources resource_path).0
          (resources resource_path).1
          (parent resource_path)
          1048576
          (head clientid now)
          bytes_of
          opened
          serialized
          engine
        ≡ some (done (ret, some torrent))
      → rewritten (some torrent) ≡ some (some torrent)
      → Delivers at_login
      → All (λ (f : String). Delivers (at_publish f)) (published torrent.files [])
      → Delivers at_logout
      → can_listen ≡ true
      → terminated ≡ true
      → All
          (λ (b : Bool). b ≡ true)
          (serve mysql (map (arriving h at) (requests_for clientid torrent)) db).1
      → (c : Jobs) × (main boost sha fs around false clientid (resource_path ∷ path ∷ [])
          ≡ some (requests_for clientid torrent ++ logout_of clientid ∷ [], done (exit_ok, c)))
        × IsKnown clientid torrent
            (view (serve mysql (map (arriving h at) (requests_for clientid torrent)) db).0)
  upload-IsKnown clientid resource_path path socket ret torrent h at db reached new made kept li ps
        lo free ended granted =
      let (c, ends) =
        upload_requests clientid resource_path path socket ret torrent reached new made kept li ps
          lo free ended in
      (c, ends, known clientid torrent h at db granted)
