-- ===== src/Client/Run/Tests.antt =====
-- A run that completes, and one whose task fails late.
use cool_down.Prelude.{
  ◌≡◌, refl, arith, String, none, some, [], ◌∷◌, true, false, string_key, nat_key, All,
}
use cool_down.Prelude.Int.{◌+ℤ◌}
use cool_down.Prelude.Map.{lookup, insert, get_or, contains, member, add}
use cool_down.Outcome.{done}
use cool_down.Client.Torrent.{
  torrent_info, torrent_file_info, build_map, add_to_map, get_one_file_of_same_fileid,
}
use cool_down.Client.SockManager.{get_idle_client_sock, get_from, return_sock}
use cool_down.Client.SockManager.Lists.{take_idle, give_back, same_sock}
use cool_down.Client.LocalFiles.{has_local_file, get_file}
use cool_down.Client.JobInfo.{download_info, unique_fileid_list, unique, bitmap_of}
use cool_down.Client.ChunkSelector.{
  init_queue, queue_files, queue_chunks, get_priority, owners_of, rank, get_chunk, pop_max,
  report_success_chunk, report_failed_chunk, set_bit,
}
use cool_down.Client.ChunkSelector.Queue.{IsReady}
use cool_down.Client.Run.{
  left, start_run, search_files, turn, take_chunk, download_from, min_payload, ask_sock, prepare,
  launch, on_failed, on_finished,
}
use cool_down.Client.Run.Steps.{Reach, start, later, turns, launches, fails, finishes}
use cool_down.Client.Run.Tally.{bit_count, queued_count, tasks_count, key_count}
use cool_down.Client.Run.Moves.{torrent_info-IsKeyed}
use cool_down.Client.Run.Refinement.{total, phase, queued, ◌⟶*◌, Reach-follows}
use cool_down.Client.Run.Ends.{Reach-left, run_completes}
use cool_down.Client.Run.Samples.{
  boost, file, torrent, peer, nothing_yet, socks, chunk, no_search, at_start, with_sock, task,
  under_way, received, at_end, at_wait, failed_late, over,
}

start_run_one : start_run boost "me" (λ f. no_search) nothing_yet socks ≡ done at_start
unfolding start_run search_files contains lookup init_queue queue_files queue_chunks get_priority
    owners_of rank unique_fileid_list unique add member bitmap_of torrent_info torrent_file_info
    build_map add_to_map insert get_or ◌+ℤ◌ download_info
start_run_one = refl

turn_one : turn boost "me" true no_search none at_start ≡ done with_sock
unfolding turn take_chunk download_from min_payload ask_sock prepare get_chunk pop_max
    get_idle_client_sock get_from take_idle lookup insert get_one_file_of_same_fileid has_local_file
    get_file contains member get_or torrent_info torrent_file_info build_map add_to_map
    download_info
turn_one = refl

on_finished_one : on_finished [] task [] under_way ≡ done received
unfolding on_finished report_success_chunk bitmap_of set_bit return_sock give_back same_sock lookup
    insert member download_info
on_finished_one = refl

turn_last : turn boost "me" true no_search none received ≡ done at_end
unfolding turn get_chunk download_info
turn_last = refl

launch_one : launch true true "f" chunk "peer" (some 3) with_sock ≡ under_way
unfolding launch
launch_one = refl

-- The thread of the job takes the chunk, its task is finished, and the loop is left.
under_way_reached : Reach boost "me" at_start under_way
under_way_reached = rw launch_one at (
    later (later start (turns true no_search none refl turn_one))
      (launches true true "f" chunk "peer" (some 3) refl))

at_end_reached : Reach boost "me" at_start at_end
at_end_reached =
    later (later under_way_reached (finishes [] task [] refl on_finished_one))
      (turns true no_search none refl turn_last)

total_start : total "f" 0 at_start ≡ 1
unfolding bit_count queued_count tasks_count key_count lookup download_info
total_start = refl

Reach-follows_example : (total "f" 0 at_end ≡ 1) × (phase "f" 0 at_start ⟶* phase "f" 0 at_end)
Reach-follows_example =
    Reach-follows "f" 0 boost "me" at_start at_end at_end_reached (torrent_info-IsKeyed torrent)
      total_start

ready : All (IsReady nothing_yet) (unique_fileid_list nothing_yet)
unfolding unique_fileid_list unique add member lookup torrent_info torrent_file_info build_map
    add_to_map insert get_or download_info
ready = (
  record {
    file = torrent_file_info file;
    copies = [];
    bits = false ∷ [];
    owners = peer ∷ [];
    listed = refl;
    mapped = refl;
    sized = refl;
    owned = refl;
    shared = (omega arith, tt);
  },
  tt,
)

in_job : member "f" (unique_fileid_list nothing_yet) ≡ true
unfolding unique_fileid_list unique add member
in_job = refl

bits_listed : lookup {K = String} "f" nothing_yet.download_info.bitmap_map ≡ some (false ∷ [])
unfolding lookup download_info
bits_listed = refl

run_completes_example : bit_count "f" 0 at_end.info.download_info ≡ 1
run_completes_example =
    run_completes boost "me" "f" 0 (λ f. no_search) nothing_yet socks torrent at_start at_end
      (false ∷ []) start_run_one ready refl in_job bits_listed (omega arith) at_end_reached refl
      refl refl refl

turn_waiting : turn boost "me" true no_search none under_way ≡ done at_wait
unfolding turn get_chunk download_info
turn_waiting = refl

on_failed_late : on_failed [] task [] at_wait ≡ done failed_late
unfolding on_failed report_failed_chunk get_priority owners_of rank lookup ◌+ℤ◌
on_failed_late = refl

on_finished_late : on_finished [] (record task { reported = true }) [] failed_late ≡ done over
unfolding on_finished return_sock give_back same_sock lookup insert member
on_finished_late = refl

-- A run in which the chunk is wanted, no task is left, and the loop has been left.
over_reached : Reach boost "me" at_start over
over_reached =
    later
      (later (later under_way_reached (turns true no_search none refl turn_waiting))
        (fails [] task [] refl refl on_failed_late))
      (finishes [] (record task { reported = true }) [] refl on_finished_late)

total_waiting : total "f" 0 at_wait ≡ 1
unfolding bit_count queued_count tasks_count key_count lookup download_info
total_waiting = refl

Reach-left_example : (over.place ≡ left) × (phase "f" 0 over ≡ queued)
Reach-left_example =
    Reach-left boost "me" "f" 0 [] task [] at_wait failed_late over (torrent_info-IsKeyed torrent)
      total_waiting refl refl refl refl refl on_failed_late
      (later start (finishes [] (record task { reported = true }) [] refl on_finished_late))
