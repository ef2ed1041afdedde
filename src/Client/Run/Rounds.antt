-- ===== src/Client/Run/Rounds.antt =====
-- What a round of the loop, and the search for owners in it, does to one chunk.
use cool_down.Prelude.{
  ℕ, ◌+◌, ◌≤◌, ◌≡◌, refl, ap, ◌∙◌, arith, String, Option, none, some, Bool, true, false, if_both,
  if◌then◌else◌,
}
use cool_down.Outcome.{done, throw, exception, WhenDone, WhenDone-bind, WhenDone-map}
use cool_down.Client.SockManager.Lists.{SockPtr}
use cool_down.Client.ChunkSelector.{ChunkInfo, ChunkQueue, get_chunk}
use cool_down.Client.Bitmaps.{Blocks}
use cool_down.Client.Owners.{reinit_file_owner_info}
use cool_down.Client.Owners.Keeping.{Keeps, reinit_file_owner_info-Keeps}
use cool_down.Client.Run.{
  looping, left, needs_sock, ask_sock, Run, Search, is_noowner, search, take_chunk, turn,
}
use cool_down.Client.Run.Tally.{
  is, queued_count, place_count, bit_count, get_chunk-count, taken_count,
}
use cool_down.Client.Run.Moves.{IsKeyed, Takes, Holds, download_from-Takes, ask_sock-Holds}

-- A search changes the owners and the sockets only.
pub record Searched (s s' : Run) : Type 0 where
  pub info : Keeps s.info s'.info
  pub queue : s'.queue ≡ s.queue
  pub tasks : s'.tasks ≡ s.tasks
  pub place : s'.place ≡ s.place
  pub dropped : s'.dropped ≡ s.dropped

module _ (f : String) (n : ℕ) where
  -- The chunk moves at most from the queue to the hands of the thread.
  pub record Advances (s s' : Run) : Type 0 where
    pub bit : bit_count f n s'.info.download_info ≡ bit_count f n s.info.download_info
    pub torrent : s'.info.torrent_info ≡ s.info.torrent_info
    pub tasks : s'.tasks ≡ s.tasks
    pub dropped : s'.dropped ≡ s.dropped
    pub count :
        queued_count f n s'.queue + place_count f n s'.place
        ≡ queued_count f n s.queue + place_count f n s.place
    pub more : place_count f n s.place ≤ place_count f n s'.place

module _ (boost : Blocks) (self_id : String) where
  pub search-Searched :
      (fileid : String) (x : Search) (s : Run)
      → WhenDone (Searched s) (search boost self_id fileid x s)
  unfolding search
  search-Searched fileid x s =
      WhenDone-bind _
        (reinit_file_owner_info boost self_id fileid x.asked x.greetings (s.info, s.manager)) _
        (reinit_file_owner_info-Keeps boost self_id fileid x.asked x.greetings (s.info, s.manager))
        λ out k. record { info = k; queue = refl; tasks = refl; place = refl; dropped = refl }

  module _ (f : String) (n : ℕ) where
    -- The owners have been searched for, if at all, and the chunk `c` is out of the queue `q`.
    take_chunk-Advances :
        (c : ChunkInfo) (x : Search) (fresh : SockPtr) (s : Run) (q : ChunkQueue)
        → IsKeyed s.info.torrent_info
        → s.place ≡ looping
        → is f n c.fileid c.chunk_num + queued_count f n q ≡ queued_count f n s.queue
        → WhenDone (Advances f n s) (take_chunk boost self_id c x fresh (record s { queue = q }))
    unfolding take_chunk
    take_chunk-Advances c x fresh s q keyed top e =
        WhenDone-bind _
          (if is_noowner c.status
            then search boost self_id c.fileid x (record s { queue = q })
            else done (record s { queue = q }))
          _
          (if_both (WhenDone (Searched (record s { queue = q }))) (is_noowner c.status)
            (search-Searched c.fileid x (record s { queue = q }))
            (record {
              info = record { download = refl; torrent = refl; files = refl; list = refl };
              queue = refl;
              tasks = refl;
              place = refl;
              dropped = refl;
            }))
          λ s1 k.
            WhenDone-map
              (λ t (h : Takes f n c s1 t). record {
                bit =
                    ap (λ j. bit_count f n j.download_info) h.info
                    ∙ ap (bit_count f n) k.info.download;
                torrent = ap (λ j. j.torrent_info) h.info ∙ k.info.torrent;
                tasks = h.tasks ∙ k.tasks;
                dropped = h.dropped ∙ k.dropped;
                count = rw (h.count, k.queue, top) (omega (arith, e));
                more = rw top (omega arith);
              })
              _
              (download_from-Takes f n c c.client_lists fresh s1 (rw k.info.torrent keyed)
                (k.place ∙ top))

    same_run : (s : Run) → Advances f n s s
    same_run s = record {
      bit = refl;
      torrent = refl;
      tasks = refl;
      dropped = refl;
      count = refl;
      more = omega arith;
    }

    leaves : (s : Run) → s.place ≡ looping → Advances f n s (record s { place = left })
    leaves s top = record {
      bit = refl;
      torrent = refl;
      tasks = refl;
      dropped = refl;
      count = rw top refl;
      more = rw top (omega arith);
    }

    pub turn-Advances :
        (signalled : Bool) (x : Search) (fresh : SockPtr) (s : Run)
        → IsKeyed s.info.torrent_info
        → s.place ≡ looping
        → WhenDone (Advances f n s) (turn boost self_id signalled x fresh s)
    unfolding turn
    turn-Advances signalled x fresh s keyed top =
        if_both (WhenDone (Advances f n s)) s.info.download_info.is_job_removed (leaves s top) (
          if_both (WhenDone (Advances f n s)) s.info.download_info.is_stopped (same_run s) (
            if_both (WhenDone (Advances f n s)) s.info.download_info.is_download_paused
              (waited signalled)
              (got (get_chunk s.queue).0 (get_chunk s.queue).1 (get_chunk-count f n s.queue))))
      where
        waited : (b : Bool) → WhenDone (Advances f n s) (if b then done s else throw exception)
        waited true = same_run s
        waited false = tt

        got :
            (c : Option ChunkInfo) (q : ChunkQueue)
            → taken_count f n c + queued_count f n q ≡ queued_count f n s.queue
            → WhenDone (Advances f n s) (elim c [
              | none ↦ done (record s { queue = q; place = left })
              | some chunk ↦ take_chunk boost self_id chunk x fresh (record s { queue = q })
            ])
        got none q e = record {
          bit = refl;
          torrent = refl;
          tasks = refl;
          dropped = refl;
          count = rw top (omega (arith, e));
          more = rw top (omega arith);
        }
        got (some c) q e = take_chunk-Advances c x fresh s q keyed top e

    pub ask_sock-Advances :
        (c : ChunkInfo) (clientid : String) (fresh : SockPtr) (s : Run)
        → IsKeyed s.info.torrent_info
        → s.place ≡ needs_sock c clientid
        → WhenDone (Advances f n s) (ask_sock c clientid fresh s)
    ask_sock-Advances c clientid fresh s keyed waits =
        WhenDone-map
          (λ t (h : Holds f n c s t). record {
            bit = ap (λ j. bit_count f n j.download_info) h.info;
            torrent = ap (λ j. j.torrent_info) h.info;
            tasks = h.tasks;
            dropped = h.dropped;
            count = rw (h.queue, h.place, waits) refl;
            more = rw (h.place, waits) (omega arith);
          })
          _ (ask_sock-Holds f n c clientid fresh s keyed)
