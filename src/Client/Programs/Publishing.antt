-- ===== src/Client/Programs/Publishing.antt =====
-- The publications of the uploading program, and what they ask of the directory.
use cool_down.Prelude.{
  ◌≡◌, refl, ℕ, String, some, List, [], ◌∷◌, map, Bool, true, false, All, string_key, nat_key,
  arith, ◌==◌, Bool-cases, inl, inr,
}
use cool_down.Prelude.Int.{pos}
use cool_down.Prelude.Map.{beq_refl, member, member-add, add, lookup}
use cool_down.Messages.{
  Message, login, publish_resource, payload_code, payload_login, payload_publish_resource,
}
use cool_down.Client.Torrent.{FileEntry}
use cool_down.Client.SockManager.{get_tracker_sock}
use cool_down.Client.Jobs.{published}
use cool_down.Client.TrackerCalls.{Attempt, publish_resource_to_tracker}
use cool_down.Client.Programs.Setting.{tracker_address}
use cool_down.Client.Programs.{publish_all}
use cool_down.Client.Programs.Requests.{with_sock, Delivers, ask-Delivers}
use cool_down.Outcome.{done}
use cool_down.Tracker.Database.{Session}
use cool_down.Tracker.Handler.{Handler}
use cool_down.Tracker.Directory.{Directory}
use cool_down.Tracker.Directory.Follows.{Event, requested, change, replay, happen, serve}

-- A request as it arrives, with the payload type that the client gives it.
abbrev pub arriving : Handler → String → Message → Event
arriving h now (login l) = requested h now (payload_code payload_login) (some (login l))
arriving h now (publish_resource p) =
    requested h now (payload_code payload_publish_resource) (some (publish_resource p))
arriving h now m = requested h now 0 (some m)

abbrev pub publication : String → String → Message
publication clientid fileid = publish_resource (record { client_id = clientid; file_id = fileid })

pub publish_all_lem :
    (socket : ℕ) (clientid : String) (x : String → Attempt) (fs : List String)
    → All (λ (f : String). Delivers (x f)) fs
    → publish_all (with_sock socket) clientid tracker_address x fs
      ≡ (map (publication clientid) fs, done tt)
unfolding publish_all publish_resource_to_tracker get_tracker_sock lookup
publish_all_lem socket clientid x [] d = refl
publish_all_lem socket clientid x (f ∷ fs) (d, ds) =
    let (ret, sent) = ask-Delivers (publication clientid f) (x f) d in
    rw (sent, publish_all_lem socket clientid x fs ds) refl

unfoldable pub changes : List Event → Directory → Directory
changes [] d = d
changes (e ∷ es) d = changes es (change e d)

module _ (mysql : Session) where
  -- Where every request is granted, all that was asked for happens.
  pub serve-changes :
      (es : List Event) (db : mysql.Db) (d : Directory)
      → All (λ (b : Bool). b ≡ true) (serve mysql es db).1
      → replay es (serve mysql es db).1 d ≡ changes es d
  unfolding serve replay changes
  serve-changes [] db d g = refl
  serve-changes (e ∷ es) db d (b, g) = rw b (serve-changes es (happen mysql e db).0 (change e d) g)

module _ (h : Handler) (now clientid : String) where
  abbrev publications : List String → List Event
  publications fs = map (arriving h now) (map (publication clientid) fs)

  pub still_online :
      (fs : List String) (d : Directory) (k : String)
      → (changes (publications fs) d).online k ≡ d.online k
  unfolding changes payload_code
  still_online [] d k = refl
  still_online (f ∷ fs) d k = still_online fs (change (arriving h now (publication clientid f)) d) k

  still_complete :
      (fs : List String) (d : Directory) (k : String)
      → d.progress k clientid ≡ some (pos 100)
      → (changes (publications fs) d).progress k clientid ≡ some (pos 100)
  unfolding changes payload_code
  still_complete [] d k c = c
  still_complete (f ∷ fs) d k c =
      still_complete fs (change (arriving h now (publication clientid f)) d) k (ground arith)

  pub now_complete :
      (fs : List String) (d : Directory) (k : String)
      → member k fs ≡ true
      → (changes (publications fs) d).progress k clientid ≡ some (pos 100)
  unfolding changes payload_code member
  now_complete [] d k m = cc
  now_complete (f ∷ fs) d k m = elim (Bool-cases (k == f)) [
    | inl e ↦
        still_complete fs (change (arriving h now (publication clientid f)) d) k
          (rw (e, beq_refl clientid) refl)
    | inr e ↦ now_complete fs (change (arriving h now (publication clientid f)) d) k (ground arith)
  ]

pub published-member :
    (files : List FileEntry) (seen : List String) (k : String)
    → member k (map (λ f. f.check_sum) files) ≡ true
    → member k seen ≡ false
    → member k (published files seen) ≡ true
unfolding published member
published-member [] seen k m n = cc
published-member (f ∷ fs) seen k m n = elim (Bool-cases (member f.check_sum seen)) [
  | inl h ↦
      let apart : (k == f.check_sum) ≡ false = ground (arith, string_key.beq_iff k f.check_sum) in
      rw (published, h) (published-member fs seen k (ground arith) n)
  | inr h ↦ elim (Bool-cases (k == f.check_sum)) [
    | inl e ↦ rw (published, h) (ground arith)
    | inr e ↦
        rw (published, h)
          (ground
            (arith, published-member fs (add f.check_sum seen) k, member-add f.check_sum k seen))
  ]
]

pub each_file :
    (P : String → Type 0) (files : List FileEntry)
    → ((k : String) → member k (map (λ f. f.check_sum) files) ≡ true → P k)
    → All (λ (f : FileEntry). P f.check_sum) files
unfolding member
each_file P [] h = tt
each_file P (f ∷ fs) h =
    (h f.check_sum (rw (beq_refl f.check_sum) refl), each_file P fs (λ k m. h k (ground arith)))
