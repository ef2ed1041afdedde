-- ===== src/Client/Run/Ends.antt =====
-- What holds when the loop of `run` has been left.
use cool_down.Prelude.{
  refl, ℕ, ◌+◌, ◌≤◌, ◌<◌, ◌≡◌, ap, ◌∙◌, arith, String, some, List, [], ◌∷◌, ◌++◌, true, false,
  length, nat_beq_refl, All, string_key, nat_key,
}
use cool_down.Prelude.Map.{lookup, member, beq_refl}
use cool_down.Outcome.{done}
use cool_down.Client.SockManager.{SockManager}
use cool_down.Client.Torrent.{Torrent, torrent_info}
use cool_down.Client.JobInfo.{Bitmap, JobInfo, unique_fileid_list}
use cool_down.Client.ChunkSelector.Queue.{IsReady}
use cool_down.Client.Bitmaps.{Blocks}
use cool_down.Client.Run.{Run, Search, DownloadTask, left, start_run, on_failed}
use cool_down.Client.Run.Steps.{
  Step, Reach, start, later, turns, turn_throws, wakes, wake_throws, launches, fails, fail_throws,
  finishes, finish_throws, return_throws, sets, elsewhere,
}
use cool_down.Client.Run.Tally.{task_count, queued_count, tasks_count, key_count, bit_count}
use cool_down.Client.Run.Moves.{IsKeyed, torrent_info-IsKeyed}
use cool_down.Client.Run.Reports.{Fails, on_failed-Fails, Finishes, on_finished-Finishes}
use cool_down.Client.Run.Refinement.{total, phase, queued, Step-moves, Reach-follows}
use cool_down.Client.Run.Start.{start_run-total, start_run-torrent}

module _ (boost : Blocks) (self_id : String) (f : String) (n : ℕ) where
  -- No step of another thread takes a chunk out of the queue.
  Step-left :
      (s s' : Run)
      → Step boost self_id s s'
      → s.place ≡ left
      → (s'.place ≡ left) × (queued_count f n s.queue ≤ queued_count f n s'.queue)
  Step-left s s' (turns signalled x fresh top e) at_end = cc
  Step-left s _ (turn_throws signalled x fresh e owners top raised) at_end = cc
  Step-left s _ (wake_throws c clientid fresh e waits raised) at_end = cc
  Step-left s _ (fail_throws before t after e among fresh raised) at_end = (at_end, omega arith)
  Step-left s _ (finish_throws before t after e among raised) at_end = (at_end, omega arith)
  Step-left s _ (return_throws before t after d e among bits raised) at_end = (at_end, omega arith)
  Step-left s s' (wakes c clientid fresh waits e) at_end = cc
  Step-left s _ (launches available starts fileid c clientid sock waits) at_end = cc
  Step-left s s' (fails before t after among fresh e) at_end =
      let h : Fails f n t s s' = rw e at (on_failed-Fails f n before t after s among fresh) in
      (h.place ∙ at_end, omega (arith, h.count, h.less))
  Step-left s s' (finishes before t after among e) at_end =
      let h : Finishes f n t s s' = rw e at (on_finished-Finishes f n before t after s among) in
      (h.place ∙ at_end, omega (arith, ap (queued_count f n) h.queue))
  Step-left s _ (sets removed stopped paused) at_end = (at_end, omega arith)
  Step-left s _ (elsewhere m) at_end = (at_end, omega arith)

  stays :
      (s t : Run)
      → Reach boost self_id s t
      → s.place ≡ left
      → (t.place ≡ left) × (queued_count f n s.queue ≤ queued_count f n t.queue)
  stays s _ start at_end = (at_end, omega arith)
  stays s u (later {t} r step) at_end =
      let (e, le) = stays s t r at_end in
      let (e', le') = Step-left t u step e in (e', omega (arith, le, le'))

  -- The torrent gives each file under its own id, the chunk has one place, and the loop has been left
  -- while a task that has not been reported still has the chunk. When this task then fails, its chunk
  -- is put back into the queue, and in every interleaving after that it stays there: the loop, which
  -- would take it, no longer runs.
  pub Reach-left :
      (before : List DownloadTask) (t : DownloadTask) (after : List DownloadTask) (s s' u : Run)
      → IsKeyed s.info.torrent_info
      → total f n s ≡ 1
      → s.place ≡ left
      → s.tasks ≡ before ++ t ∷ after
      → t.reported ≡ false
      → t.fileid ≡ f
      → t.chunk_pos ≡ n
      → on_failed before t after s ≡ done s'
      → Reach boost self_id s' u
      → (u.place ≡ left) × (phase f n u ≡ queued)
  Reach-left before t after s s' u keyed one at_end among fresh same_file same_chunk failed r =
      let h : Fails f n t s s' = rw failed at (on_failed-Fails f n before t after s among fresh) in
      let its : task_count f n t ≡ 1 =
        rw (fresh, same_file, same_chunk, beq_refl f, nat_beq_refl n) refl in
      let (torrent, (one', _)) =
        Step-moves f n boost self_id s s' (fails before t after among fresh failed) keyed one in
      let one'' : total f n u ≡ 1 =
        (Reach-follows f n boost self_id s' u r (rw torrent keyed) one').0 in
      let stands : 1 ≤ queued_count f n s'.queue = omega (arith, h.count, h.less, its) in
      let (at_end', more) = stays s' u r (h.place ∙ at_end) in
      let waits : queued_count f n u.queue ≡ 1 = omega (arith, more, stands, one'') in
      (at_end', grind (arith, waits, one''))

  -- A job runs, and each of its files is ready when the loop begins. If, after any interleaving of the
  -- threads, the loop has been left, the queue is empty, each task has finished and no chunk was
  -- dropped, by a task that could not be started or by an exception, then the bit of every chunk of
  -- every file is set.
  pub run_completes :
      (net : String → Search) (info : JobInfo) (m : SockManager) (torrent : Torrent) (s t : Run)
      (bits : Bitmap)
      → start_run boost self_id net info m ≡ done s
      → All (IsReady s.info) (unique_fileid_list s.info)
      → info.torrent_info ≡ torrent_info torrent
      → member f (unique_fileid_list s.info) ≡ true
      → lookup f s.info.download_info.bitmap_map ≡ some bits
      → n < length bits
      → Reach boost self_id s t
      → t.place ≡ left
      → t.queue ≡ []
      → t.tasks ≡ []
      → t.dropped ≡ []
      → bit_count f n t.info.download_info ≡ 1
  unfolding queued_count tasks_count key_count
  run_completes net info m torrent s t bits e ready made has b l r at_end no_queue no_tasks
        none_dropped =
      let keyed : IsKeyed s.info.torrent_info =
        rw (start_run-torrent boost self_id net info m s e ∙ made) (torrent_info-IsKeyed torrent) in
      let one = start_run-total boost self_id net info m s f n bits e ready has b l in
      let one' = (Reach-follows f n boost self_id s t r keyed one).0 in
      let all : bit_count f n t.info.download_info + 0 + (0 + 0) + 0 ≡ 1 =
        rw (at_end, no_queue, no_tasks, none_dropped) at one' in
      omega (arith, all)
