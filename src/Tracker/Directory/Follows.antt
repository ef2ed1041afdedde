-- ===== src/Tracker/Directory/Follows.antt =====
-- The tables follow the replies.
use cool_down.Prelude.{
  ℕ, ◌≡◌, refl, ap, ◌∙◌, String, Option, none, some, List, [], ◌∷◌, Bool, true, false, All, ◌==◌,
  string_key, nat_key, inl, inr, Bool-cases, nat_beq_iff, if◌then◌else◌,
}
use cool_down.Prelude.Int.{pos}
use cool_down.ErrorCode.{RetCode, is_ok}
use cool_down.Outcome.{Outcome, done, throw, Outcome-cases, ◌>>=◌}
use cool_down.Messages.{
  Message, login, logout, report_progress, publish_resource, message_reply, payload_code,
  MessageReply,
}
use cool_down.Tracker.Database.{Session, IsPlain}
use cool_down.Tracker.Service.{add_online_user, remove_online_user, note_progress, note_resource}
use cool_down.Tracker.Handler.{
  Handler, or_host, answered, handle_login, handle_logout, handle_report_progress,
  handle_publish_resource, process,
}
use cool_down.Tracker.Directory.{Directory, IsRelational, asked, left}

-- The packet tells that the request was granted.
abbrev pub granted : Option (ℕ × Message) → Bool
granted (some (kind, message_reply r)) = r.return_code == 0
granted _ = false

-- The ids of a progress report are spliced into its statement as they are.
abbrev pub IsPlainMessage : Message → Type 0
IsPlainMessage (report_progress r) = IsPlain r.file_id × IsPlain r.client_id
IsPlainMessage _ = Unit

-- A reply with the database after it, as a change of the directory.
abbrev Follow :
    (mysql : Session)
    → (mysql.Db → Directory)
    → mysql.Db
    → Directory
    → mysql.Db × MessageReply
    → Type 0
Follow mysql view db d (db', reply) = view db' ≡ (if reply.return_code == 0 then d else view db)

module _ (mysql : Session) (view : mysql.Db → Directory) (laws : IsRelational mysql view) where
  open mysql use {Db}
  open laws use {upsert_login-view, mark_offline-view, insert_owner-view, upsert_owner-view}

  -- A statement, and the code that goes with it.
  answered_follows :
      (db : Db) (d : Directory) (statement : Outcome Db)
      → ((db' : Db) → statement ≡ done db' → view db' ≡ d)
      → Follow mysql view db d
          (answered mysql db (statement >>= λ (db' : Db). done (db', RetCode.ok)))
  unfolding is_ok
  answered_follows db d (done db') h = h db' refl
  answered_follows db d (throw e) h = refl

  login_follows :
      (h : Handler) (now : String) (m : Message) (db : Db)
      → Follow mysql view db
          (asked h 10000 m (view db))
          ((handle_login mysql h now m db).1, (handle_login mysql h now m db).2)
  unfolding handle_login add_online_user payload_code
  login_follows h now (login l) db =
      answered_follows db _
        (mysql.upsert_login l.client_id (or_host l.login_ip h.host) l.message_port now db)
        (λ db' e.
          upsert_login-view l.client_id (or_host l.login_ip h.host) l.message_port now db db' e)
  login_follows h now _ db = refl

  logout_follows :
      (h : Handler) (m : Message) (db : Db)
      → Follow mysql view db (asked h 10001 m (view db)) (handle_logout mysql h m db)
  unfolding handle_logout remove_online_user payload_code
  logout_follows h (logout l) db = elim (Bool-cases (l.client_id == h.clientid)) [
    | inl e ↦
        rw (handle_logout, e)
          (answered_follows db _ (mysql.mark_offline l.client_id (pos 0) (pos 0) db)
            (λ db' g. mark_offline-view l.client_id (pos 0) (pos 0) db db' g))
    | inr e ↦ rw (handle_logout, e) refl
  ]
  logout_follows h _ db = refl

  report_progress_follows :
      (h : Handler) (m : Message) (db : Db)
      → IsPlainMessage m
      → Follow mysql view db (asked h 10003 m (view db)) (handle_report_progress mysql m db)
  unfolding handle_report_progress note_progress payload_code
  report_progress_follows h (report_progress r) db (f, c) =
      answered_follows db _ (mysql.upsert_owner r.file_id r.client_id r.percentage db)
        (λ db' e. upsert_owner-view r.file_id r.client_id r.percentage db db' f c e)
  report_progress_follows h _ db p = refl

  publish_resource_follows :
      (h : Handler) (m : Message) (db : Db)
      → Follow mysql view db (asked h 10004 m (view db)) (handle_publish_resource mysql m db)
  unfolding handle_publish_resource note_resource payload_code
  publish_resource_follows h (publish_resource r) db =
      answered_follows db _ (mysql.insert_owner r.file_id r.client_id (pos 100) db)
        (λ db' e. insert_owner-view r.file_id r.client_id (pos 100) db db' e)
  publish_resource_follows h _ db = refl

  -- The directory after a request is the one that was asked for, if the packet says that the request
  -- was granted, and otherwise the one before.
  pub process_follows :
      (h : Handler) (now : String) (kind : ℕ) (m : Message) (db : Db)
      → IsPlainMessage m
      → view (process mysql h now kind (some m) db).1 ≡ (
          if granted (process mysql h now kind (some m) db).2
          then asked h kind m (view db)
          else view db)
  unfolding process payload_code
  process_follows h now kind m db plain = elim (Bool-cases (kind == 10000)) [
    | inl e ↦ rw ((nat_beq_iff kind 10000).0 e) (login_follows h now m db)
    | inr a ↦ elim (Bool-cases (kind == 10001)) [
      | inl e ↦ rw ((nat_beq_iff kind 10001).0 e) (logout_follows h m db)
      | inr b ↦ elim (Bool-cases (kind == 10002)) [
        | inl e ↦ rw ((nat_beq_iff kind 10002).0 e) refl
        | inr c ↦ elim (Bool-cases (kind == 10003)) [
          | inl e ↦ rw ((nat_beq_iff kind 10003).0 e) (report_progress_follows h m db plain)
          | inr d ↦ elim (Bool-cases (kind == 10004)) [
            | inl e ↦ rw ((nat_beq_iff kind 10004).0 e) (publish_resource_follows h m db)
            | inr f ↦ rw (a, b, c, d, f) refl
          ]
        ]
      ]
    ]
  ]

-- What happens at a connection: a request whose message may not have been parsed, or its end, at which
-- the client goes offline.
pub data Event : Type 0 where
  requested : Handler → String → ℕ → Option Message → Event
  dropped : Handler → Event

abbrev pub IsPlainEvent : Event → Type 0
IsPlainEvent (requested h now kind none) = Unit
IsPlainEvent (requested h now kind (some m)) = IsPlainMessage m
IsPlainEvent (dropped h) = Unit

-- The change of the directory that an event asks for.
abbrev pub change : Event → Directory → Directory
change (requested h now kind none) d = d
change (requested h now kind (some m)) d = asked h kind m d
change (dropped h) d = left h.clientid d

-- The changes that were made, of those that were asked for.
unfoldable pub replay : List Event → List Bool → Directory → Directory
replay [] made d = d
replay (e ∷ es) [] d = d
replay (e ∷ es) (b ∷ made) d = replay es made (if b then change e d else d)

module _ (mysql : Session) where
  open mysql use {Db}

  abbrev dropping : Db → Outcome (Db × RetCode) → Db × Bool
  dropping db (done (db', _)) = (db', true)
  dropping db (throw e) = (db, false)

  -- The database after an event, and whether the change was made.
  unfoldable pub happen : Event → Db → Db × Bool
  unfolding process remove_online_user
  happen (requested h now kind m) db =
      let (h', db', out) = process mysql h now kind m db in (db', granted out)
  happen (dropped h) db = dropping db (remove_online_user mysql h.clientid db)

  unfoldable pub serve : List Event → Db → Db × List Bool
  unfolding happen
  serve [] db = (db, [])
  serve (e ∷ es) db =
      let (db', b) = happen e db in let (db'', made) = serve es db' in (db'', b ∷ made)

  module _ (view : Db → Directory) (laws : IsRelational mysql view) where
    happen_follows :
        (e : Event) (db : Db)
        → IsPlainEvent e
        → view (happen e db).0 ≡ (if (happen e db).1 then change e (view db) else view db)
    unfolding happen process remove_online_user
    happen_follows (requested h now kind none) db p = refl
    happen_follows (requested h now kind (some m)) db p =
        process_follows mysql view laws h now kind m db p
    happen_follows (dropped h) db p =
        elim (Outcome-cases (mysql.mark_offline h.clientid (pos 0) (pos 0) db)) [
          | inl (db', e) ↦
              rw (happen, e) (laws.mark_offline-view h.clientid (pos 0) (pos 0) db db' e)
          | inr (f, e) ↦ rw (happen, e) refl
        ]

    -- After any history of requests and lost connections, in which the ids of each progress report are
    -- without quotes and backslashes, the directory is the first one with the changes, in order, that
    -- the answers granted and that the ends of connections made.
    pub serve_follows :
        (es : List Event) (db : Db)
        → All IsPlainEvent es
        → view (serve es db).0 ≡ replay es (serve es db).1 (view db)
    unfolding serve replay
    serve_follows [] db ps = refl
    serve_follows (e ∷ es) db (p, ps) =
        serve_follows es (happen e db).0 ps
        ∙ ap (replay es (serve es (happen e db).0).1) (happen_follows e db p)
