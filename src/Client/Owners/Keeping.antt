-- ===== src/Client/Owners/Keeping.antt =====
-- The search for owners leaves everything of the job but its owners.
use cool_down.Prelude.{
  ◌≡◌, refl, ◌∙◌, String, Option, none, some, List, [], ◌∷◌, length, ◌==◌, if_both, string_key,
  nat_key, not,
}
use cool_down.Prelude.Map.{lookup, insert, contains}
use cool_down.ErrorCode.{RetCode, is_ok}
use cool_down.Outcome.{
  done, assertion, assert, or_throw, WhenDone, WhenDone-then, WhenDone-map, WhenDone-bind,
}
use cool_down.Messages.{ShakeHand, FileInfo}
use cool_down.Client.SockManager.{SockManager}
use cool_down.Client.JobInfo.{FileOwnerInfo, OwnerInfoMap, JobInfo}
use cool_down.Client.TrackerCalls.{Exchange}
use cool_down.Client.TrackerCalls as Calls
use cool_down.Client.Bitmaps.{Blocks, conver_transport_format_bitmap}
use cool_down.Client.Owners.{
  Greeting, no_greeting, request_clients, client_shake_hand, set_bitmap, learn, hello, take_hand,
  shake_hand, greet, greet_all, reinit_file_owner_info,
}

pub record Keeps (j j' : JobInfo) : Type 0 where
  pub download : j'.download_info ≡ j.download_info
  pub torrent : j'.torrent_info ≡ j.torrent_info
  pub files : j'.local_files ≡ j.local_files
  pub list : j'.fileidlist ≡ j.fileidlist

same : (j : JobInfo) → Keeps j j
same j = record { download = refl; torrent = refl; files = refl; list = refl }

trans : (j k l : JobInfo) → Keeps j k → Keeps k l → Keeps j l
trans j k l a b = record {
  download = b.download ∙ a.download;
  torrent = b.torrent ∙ a.torrent;
  files = b.files ∙ a.files;
  list = b.list ∙ a.list;
}

only_owners : (j : JobInfo) (os : OwnerInfoMap) → Keeps j (record j { owner_info_map = os })
only_owners j os = record { download = refl; torrent = refl; files = refl; list = refl }

request_clients-Keeps :
    (j : JobInfo) (m : SockManager) (fileid : String) (x : Exchange)
    → WhenDone (λ out. Keeps j out.1) (request_clients j m fileid x)
unfolding request_clients
request_clients-Keeps j m fileid x =
    WhenDone-then _ (assert (contains fileid j.download_info.percentage_map)) _ λ _.
      WhenDone-then _ (Calls.request_clients m _ fileid _ _ _ [] x) _ λ out.
        if_both (λ (o : RetCode × JobInfo). Keeps j o.1) (not (is_ok out.0)) (only_owners j _)
          (if_both (λ (o : RetCode × JobInfo). Keeps j o.1) (length out.1 == 0) (only_owners j _)
            (only_owners j _))

module _ (boost : Blocks) where
  learn-Keeps :
      (j : JobInfo) (fileid clientid : String) (info : FileInfo)
      → WhenDone (Keeps j) (learn boost j fileid clientid info)
  unfolding learn
  learn-Keeps j fileid clientid info =
      WhenDone-then (Keeps j) (or_throw assertion (lookup fileid j.owner_info_map)) _ λ owners.
        WhenDone-then (Keeps j) (set_bitmap clientid _ owners) _ λ owners'.
          WhenDone-then (Keeps j)
            (assert (
              info.file_bit_count
              == length
                  (conver_transport_format_bitmap boost (info.file_bit, info.file_bit_count))))
            (λ _. done (record j { owner_info_map = insert fileid owners' j.owner_info_map }))
            (λ _. only_owners j (insert fileid owners' j.owner_info_map))

  take_hand-Keeps :
      (j : JobInfo) (fileid clientid : String) (out : SockManager × RetCode × Option ShakeHand)
      → WhenDone (λ o. Keeps j o.1) (take_hand boost j fileid clientid out)
  unfolding take_hand
  take_hand-Keeps j fileid clientid (m, ret, none) = same j
  take_hand-Keeps j fileid clientid (m, ret, some peer) =
      if_both (WhenDone (λ (o : RetCode × JobInfo × SockManager). Keeps j o.1)) peer.info.has_file
        (WhenDone-bind _ (learn boost j fileid clientid peer.info) _
          (learn-Keeps j fileid clientid peer.info) λ j' k. k)
        (same j)

  shake_hand-Keeps :
      (j : JobInfo) (m : SockManager) (self_id fileid clientid : String) (g : Greeting)
      → WhenDone (λ o. Keeps j o.1) (shake_hand boost j m self_id fileid clientid g)
  unfolding shake_hand
  shake_hand-Keeps j m self_id fileid clientid g =
      WhenDone-then _ (hello boost j self_id fileid) _ λ _.
        WhenDone-then _ (client_shake_hand m clientid g.fresh g.exchange) _
          λ out. take_hand-Keeps j fileid clientid out

  greet-Keeps :
      (self_id fileid : String) (o : FileOwnerInfo) (g : Greeting) (s : JobInfo × SockManager)
      → WhenDone (λ o. Keeps s.0 o.0) (greet boost self_id fileid o g s)
  unfolding greet
  greet-Keeps self_id fileid o g (j, m) =
      WhenDone-bind _ (shake_hand boost j _ self_id fileid o.clientid g) _
        (shake_hand-Keeps j _ self_id fileid o.clientid g) λ out k. k

  greet_all-Keeps :
      (self_id fileid : String) (os : List FileOwnerInfo) (gs : List Greeting)
      (s : JobInfo × SockManager)
      → WhenDone (λ o. Keeps s.0 o.0) (greet_all boost self_id fileid os gs s)
  unfolding greet_all
  greet_all-Keeps self_id fileid [] gs s = same s.0
  greet_all-Keeps self_id fileid (o ∷ os) [] s =
      WhenDone-bind _ (greet boost self_id fileid o no_greeting s) _
        (greet-Keeps self_id fileid o no_greeting s)
        λ s' k.
          WhenDone-map (λ (t : JobInfo × SockManager) l. trans s.0 s'.0 t.0 k l) _
            (greet_all-Keeps self_id fileid os [] s')
  greet_all-Keeps self_id fileid (o ∷ os) (g ∷ gs) s =
      WhenDone-bind _ (greet boost self_id fileid o g s) _ (greet-Keeps self_id fileid o g s)
        λ s' k.
          WhenDone-map (λ (t : JobInfo × SockManager) l. trans s.0 s'.0 t.0 k l) _
            (greet_all-Keeps self_id fileid os gs s')

  pub reinit_file_owner_info-Keeps :
      (self_id fileid : String) (x : Exchange) (gs : List Greeting) (s : JobInfo × SockManager)
      → WhenDone (λ o. Keeps s.0 o.0) (reinit_file_owner_info boost self_id fileid x gs s)
  unfolding reinit_file_owner_info
  reinit_file_owner_info-Keeps self_id fileid x gs (j, m) =
      WhenDone-bind _ (request_clients j m fileid x) _ (request_clients-Keeps j m fileid x) λ out k.
        if_both (WhenDone (λ (o : JobInfo × SockManager). Keeps j o.0)) (is_ok out.0)
          (WhenDone-map (λ (t : JobInfo × SockManager) l. trans j out.1 t.0 k l) _
            (greet_all-Keeps self_id fileid _ gs (out.1, m)))
          k
