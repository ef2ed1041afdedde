-- ===== src/Tracker/Directory/Again.antt =====
-- A file that is published by a client which the directory has as an owner of some of it.
use cool_down.Prelude.{◌≡◌, refl, String, some, List, nat_key}
use cool_down.Prelude.Int.{ℤ, pos}
use cool_down.Messages.{
  PublishResource, publish_resource, message_reply, payload_code, payload_publish_resource,
  payload_message_reply,
}
use cool_down.Tracker.Database.{Session, insert_file_owner_info}
use cool_down.Tracker.Service.{note_resource}
use cool_down.Tracker.Handler.{Handler, refused, handle_publish_resource, process}
use cool_down.Tracker.Directory.{Directory, IsRelational}
use cool_down.Tracker.Directory.Follows.{Event, serve}

module _ (mysql : Session) (view : mysql.Db → Directory) (laws : IsRelational mysql view) where
  refused_twice :
      (h : Handler) (p : PublishResource) (q : ℤ) (db : mysql.Db)
      → (view db).progress p.file_id p.client_id ≡ some q
      → handle_publish_resource mysql (publish_resource p) db ≡ (db, refused)
  unfolding handle_publish_resource note_resource insert_file_owner_info
  refused_twice h p q db there =
      let (e, thrown) = laws.insert_owner_twice p.file_id p.client_id (pos 100) q db there in
      rw (handle_publish_resource, note_resource, insert_file_owner_info, thrown) refl

  -- If, after any history, a client counts as an owner of a part of a file, for example since it has
  -- reported its progress, then a publication of the file by the client is refused, and leaves the
  -- tables as they were: the part is not made the whole.
  pub publication_refused :
      (es : List Event) (db : mysql.Db) (h : Handler) (now : String) (p : PublishResource) (q : ℤ)
      → (view (serve mysql es db).0).progress p.file_id p.client_id ≡ some q
      → let db' = (serve mysql es db).0 in
        (process mysql h now (payload_code payload_publish_resource) (some (publish_resource p)) db'
          ≡ (h, db', some (payload_code payload_message_reply, message_reply refused)))
        × ((view db').progress p.file_id p.client_id ≡ some q)
  unfolding process payload_code
  publication_refused es db h now p q there =
      (rw (refused_twice h p q (serve mysql es db).0 there) refl, there)
