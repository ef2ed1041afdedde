-- ===== src/Client/Run/Reports.antt =====
-- What the end of a task, or its start, does to one chunk.
use cool_down.Prelude.{
  ℕ, ◌+◌, ◌≤◌, ◌≡◌, refl, arith, String, Option, none, some, List, [], ◌∷◌, ◌++◌, Bool, true, false,
  if◌then◌else◌, ◌&&◌, ◌==◌, string_key, nat_key,
}
use cool_down.Outcome.{done, WhenDone, WhenDone-then, WhenDone-bind}
use cool_down.Client.SockManager.{return_sock}
use cool_down.Client.JobInfo.{DownloadInfo, OwnerInfoMap}
use cool_down.Client.SockManager.Lists.{SockPtr}
use cool_down.Client.ChunkSelector.{
  ChunkInfo, ChunkQueue, get_chunk, report_failed_chunk, report_success_chunk,
}
use cool_down.Client.Run.{
  DownloadTask, new_task, looping, broken, needs_sock, needs_thread, unwound, given_up, Run, launch,
  set_reported, bits_after, on_failed, on_finished,
}
use cool_down.Client.Run.Steps.{stuck}
use cool_down.Client.Run.Tally.{
  get_chunk-count, taken_count, task_count, queued_count, tasks_count, place_count, key_count,
  bit_count, tasks-append, report_failed_chunk-count, report_success_chunk-count,
}

module _ (f : String) (n : ℕ) where
  -- The task that waits for a thread is started or dropped, or waits.
  pub record Launches (s s' : Run) : Type 0 where
    pub info : s'.info ≡ s.info
    pub queue : s'.queue ≡ s.queue
    pub count :
        tasks_count f n s'.tasks + place_count f n s'.place + key_count f n s'.dropped
        ≡ tasks_count f n s.tasks + place_count f n s.place + key_count f n s.dropped
    pub more : key_count f n s.dropped ≤ key_count f n s'.dropped

  pub launch-Launches :
      (available starts : Bool) (fileid : String) (c : ChunkInfo) (clientid : String)
      (sock : SockPtr) (s : Run)
      → s.place ≡ needs_thread fileid c clientid sock
      → Launches s (launch available starts fileid c clientid sock s)
  unfolding launch tasks_count key_count
  launch-Launches false starts fileid c clientid sock s e = record {
    info = refl;
    queue = refl;
    count = refl;
    more = omega arith;
  }
  launch-Launches true true fileid c clientid sock s e = record {
    info = refl;
    queue = refl;
    count = rw (e, tasks-append f n s.tasks (new_task fileid c clientid sock ∷ [])) (omega arith);
    more = omega arith;
  }
  launch-Launches true false fileid c clientid sock s e = record {
    info = refl;
    queue = refl;
    count = rw e (omega arith);
    more = omega arith;
  }

  -- The chunk of a failed task goes back to the queue.
  pub record Fails (t : DownloadTask) (s s' : Run) : Type 0 where
    pub info : s'.info ≡ s.info
    pub place : s'.place ≡ s.place
    pub dropped : s'.dropped ≡ s.dropped
    pub count :
        queued_count f n s'.queue + tasks_count f n s'.tasks
        ≡ queued_count f n s.queue + tasks_count f n s.tasks
    pub less : tasks_count f n s'.tasks + task_count f n t ≡ tasks_count f n s.tasks

  pub on_failed-Fails :
      (before : List DownloadTask) (t : DownloadTask) (after : List DownloadTask) (s : Run)
      → s.tasks ≡ before ++ t ∷ after
      → t.reported ≡ false
      → WhenDone (Fails t s) (on_failed before t after s)
  unfolding on_failed tasks_count
  on_failed-Fails before t after s e fresh =
      WhenDone-bind _ (report_failed_chunk s.info.owner_info_map s.queue t.chunk_pos t.fileid) _
        (report_failed_chunk-count f n s.info.owner_info_map s.queue t.chunk_pos t.fileid)
        λ q k. record {
          info = refl;
          place = refl;
          dropped = refl;
          count =
              rw
                (
                  k,
                  e,
                  tasks-append f n before (t ∷ after),
                  tasks-append f n before (set_reported t ∷ after),
                  fresh,
                )
                (omega arith);
          less =
              rw
                (
                  e,
                  tasks-append f n before (t ∷ after),
                  tasks-append f n before (set_reported t ∷ after),
                  fresh,
                )
                (omega arith);
        }

  -- The bit of a chunk that was received is set.
  pub record Finishes (t : DownloadTask) (s s' : Run) : Type 0 where
    pub torrent : s'.info.torrent_info ≡ s.info.torrent_info
    pub queue : s'.queue ≡ s.queue
    pub place : s'.place ≡ s.place
    pub dropped : s'.dropped ≡ s.dropped
    pub bit : bit_count f n s'.info.download_info ≡ (
        if t.reported
        then bit_count f n s.info.download_info
        else if t.fileid == f && t.chunk_pos == n
        then 1
        else bit_count f n s.info.download_info)
    pub count : tasks_count f n s'.tasks + task_count f n t ≡ tasks_count f n s.tasks

  reported-bit :
      (t : DownloadTask) (d : DownloadInfo)
      → WhenDone
          (λ d'. bit_count f n d' ≡ (
            if t.reported
            then bit_count f n d
            else if t.fileid == f && t.chunk_pos == n
            then 1
            else bit_count f n d))
          (bits_after t d)
  reported-bit t d =
      elim t.reported
        as (λ b.
          WhenDone
            (λ d'. bit_count f n d' ≡ (
              if b
              then bit_count f n d
              else if t.fileid == f && t.chunk_pos == n
              then 1
              else bit_count f n d))
            (if b then done d else report_success_chunk d t.chunk_pos t.fileid)) [
              | true ↦ refl
              | false ↦ report_success_chunk-count f n d t.chunk_pos t.fileid
            ]

  pub on_finished-Finishes :
      (before : List DownloadTask) (t : DownloadTask) (after : List DownloadTask) (s : Run)
      → s.tasks ≡ before ++ t ∷ after
      → WhenDone (Finishes t s) (on_finished before t after s)
  unfolding on_finished tasks_count
  on_finished-Finishes before t after s e =
      WhenDone-bind _ (bits_after t s.info.download_info) _ (reported-bit t s.info.download_info)
        λ d k. WhenDone-then _ (return_sock s.manager t.clientid t.sock) _ λ out. record {
          torrent = refl;
          queue = refl;
          place = refl;
          dropped = refl;
          bit = k;
          count =
              rw (e, tasks-append f n before (t ∷ after), tasks-append f n before after)
                (omega arith);
        }

  -- Nor does it count any more when only its socket could not be returned.
  pub stuck-Finishes :
      (before : List DownloadTask) (t : DownloadTask) (after : List DownloadTask) (d : DownloadInfo)
      (s : Run)
      → s.tasks ≡ before ++ t ∷ after
      → bits_after t s.info.download_info ≡ done d
      → Finishes t s (stuck before t after d s)
  unfolding tasks_count
  stuck-Finishes before t after d s e bits = record {
    torrent = refl;
    queue = refl;
    place = refl;
    dropped = refl;
    bit = rw bits at (reported-bit t s.info.download_info);
    count =
        rw
          (e, tasks-append f n before (t ∷ after), tasks-append f n before (set_reported t ∷ after))
          (omega arith);
  }

  -- The thread of the job ends by an exception with a chunk in its hands.
  pub given_up-Launches :
      (c : ChunkInfo) (clientid : String) (s : Run)
      → s.place ≡ needs_sock c clientid
      → Launches s (given_up c s)
  unfolding key_count
  given_up-Launches c clientid s e = record {
    info = refl;
    queue = refl;
    count = rw e (omega arith);
    more = omega arith;
  }

  -- Or in the round in which it has taken it.
  pub record Abandons (s s' : Run) : Type 0 where
    pub download : s'.info.download_info ≡ s.info.download_info
    pub torrent : s'.info.torrent_info ≡ s.info.torrent_info
    pub tasks : s'.tasks ≡ s.tasks
    pub place : place_count f n s'.place ≡ place_count f n s.place
    pub count :
        queued_count f n s'.queue + key_count f n s'.dropped
        ≡ queued_count f n s.queue + key_count f n s.dropped
    pub more : key_count f n s.dropped ≤ key_count f n s'.dropped

  pub unwound-Abandons :
      (owners : OwnerInfoMap) (s : Run) → s.place ≡ looping → Abandons s (unwound owners s)
  unfolding key_count
  unwound-Abandons owners s top = waiting s.info.download_info.is_download_paused
    where
      base : Run
      base = record s { info = record (s.info) { owner_info_map = owners }; place = broken }

      same : Abandons s base
      same = record {
        download = refl;
        torrent = refl;
        tasks = refl;
        place = rw top refl;
        count = refl;
        more = omega arith;
      }

      taken :
          (c : Option ChunkInfo) (q : ChunkQueue)
          → taken_count f n c + queued_count f n q ≡ queued_count f n s.queue
          → Abandons s (elim c [
            | none ↦ base
            | some chunk ↦ record base {
              queue = q;
              dropped = (chunk.fileid, chunk.chunk_num) ∷ s.dropped;
            }
          ])
      taken none q e = same
      taken (some c) q e = record {
        download = refl;
        torrent = refl;
        tasks = refl;
        place = rw top refl;
        count = omega (arith, e);
        more = omega arith;
      }

      waiting :
          (b : Bool)
          → Abandons s (
              if b then base else elim (get_chunk s.queue).0 [
                | none ↦ base
                | some chunk ↦ record base {
                  queue = (get_chunk s.queue).1;
                  dropped = (chunk.fileid, chunk.chunk_num) ∷ s.dropped;
                }
              ])
      waiting true = same
      waiting false =
          taken (get_chunk s.queue).0 (get_chunk s.queue).1 (get_chunk-count f n s.queue)
