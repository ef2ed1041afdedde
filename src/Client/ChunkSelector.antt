-- ===== src/Client/ChunkSelector.antt =====
-- client/include/chunk_selector.h and client/src/chunk_selector.cc. The priority queue is the list of its
-- entries in the order of the pushes; among entries of the same priority the standard does not say
-- which one `top` is; the model takes one of them.
pub mod Priority
pub mod Queue
mod Tests
use cool_down.Prelude.{
  ℕ, suc, String, Option, none, some, List, [], ◌∷◌, ◌++◌, Bool, true, false, length, ◌==◌, ltb,
  ◌-◌, ◌+◌, if◌then◌else◌, string_key, zero, set, nat_key,
}
use cool_down.Prelude.Int.{ℤ, pos, negsuc, ◌+ℤ◌, ltb_ℤ}
use cool_down.Prelude.Map.{Map, lookup, insert}
use cool_down.Outcome.{Outcome, done, throw, assertion, assert, or_throw, ◌>>=◌}
use cool_down.Client.Torrent.{TorrentFileInfo, FileMap, first_of}
use cool_down.Client.JobInfo.{
  Bitmap, test, FileOwnerInfo, OwnerInfoMap, DownloadInfo, bitmap_of, JobInfo, unique_fileid_list,
}

pub data ChunkStatus : Type 0 where
  free downloading finished failed noowner : ChunkStatus

pub record ChunkInfo : Type 0 where
  pub status : ChunkStatus
  pub fileid : String
  pub priority : ℤ
  pub chunk_num : ℕ
  pub client_lists : List FileOwnerInfo

abbrev pub rare_count : ℕ
rare_count = 5

abbrev pub highest : ℕ
highest = 20

abbrev pub normal : ℕ
normal = 10

-- The owners whose bitmap has the chunk.
unfoldable pub owners_of : ℕ → List FileOwnerInfo → Outcome (List FileOwnerInfo)
owners_of chunk_num [] = done []
owners_of chunk_num (p ∷ ps) = do
  has ← test p.bitmap chunk_num
  rest ← owners_of chunk_num ps
  done (if has then p ∷ rest else rest)

-- The priority before the baseline is added, by the number of owners.
unfoldable pub rank : ℕ → ℕ
rank n = if n == 0 then 0 else if ltb n rare_count then highest - n else normal

-- `get_priority`, which fills in the owners and the priority
unfoldable pub get_priority : OwnerInfoMap → ChunkInfo → ℤ → Outcome ChunkInfo
unfolding owners_of rank
get_priority owners info baseline = do
  list ← or_throw assertion (lookup info.fileid owners)
  clients ← owners_of info.chunk_num list
  done (record info { client_lists = clients; priority = pos (rank (length clients)) +ℤ baseline })

abbrev pub new_chunk : ChunkStatus → String → ℕ → ChunkInfo
new_chunk status fileid chunk_num = record {
  status = status;
  fileid = fileid;
  priority = pos 0;
  chunk_num = chunk_num;
  client_lists = [];
}

abbrev pub ChunkQueue : Type 0
ChunkQueue = List ChunkInfo

-- The loop over the chunks of a file: `left` more chunks from `chunk_pos` on.
unfoldable pub queue_chunks :
    OwnerInfoMap → String → Bitmap → ℕ → ℕ → ChunkQueue → Outcome ChunkQueue
unfolding get_priority
queue_chunks owners fileid bits zero chunk_pos q = done q
queue_chunks owners fileid bits (suc left) chunk_pos q = do
  have ← test bits chunk_pos
  q' ←
      if have
      then done q
      else do c ← get_priority owners (new_chunk free fileid chunk_pos) (pos 0); done (q ++ c ∷ [])
  queue_chunks owners fileid bits left (chunk_pos + 1) q'

unfoldable pub queue_files : JobInfo → List String → ChunkQueue → Outcome ChunkQueue
unfolding queue_chunks
queue_files j [] q = done q
queue_files j (fileid ∷ fileids) q = do
  same ← or_throw assertion (lookup fileid j.torrent_info.file_map)
  file ← first_of same
  bits ← if file.chunk_count == 0 then done [] else bitmap_of j.download_info fileid
  q' ← queue_chunks j.owner_info_map fileid bits file.chunk_count 0 q
  queue_files j fileids q'

unfoldable pub init_queue : JobInfo → Outcome ChunkQueue
unfolding queue_files
init_queue j = queue_files j (unique_fileid_list j) []

-- `top` and `pop`
unfoldable pub pop_max : ChunkInfo → ChunkQueue → ChunkInfo × ChunkQueue
pop_max c [] = (c, [])
pop_max c (d ∷ q) =
    let less = ltb_ℤ c.priority d.priority in
    let (m, rest) = pop_max (if less then d else c) q in (m, (if less then c else d) ∷ rest)

unfoldable pub get_chunk : ChunkQueue → Option ChunkInfo × ChunkQueue
unfolding pop_max
get_chunk [] = (none, [])
get_chunk (c ∷ q) = let (m, rest) = pop_max c q in (some m, rest)

-- `bitmap[chunk_num] = 1`, which has no meaning past the end
unfoldable pub set_bit : Bitmap → ℕ → Outcome Bitmap
set_bit bits chunk_num = do _ ← test bits chunk_num; done (set bits chunk_num true)

unfoldable pub report_success_chunk : DownloadInfo → ℕ → String → Outcome DownloadInfo
unfolding set_bit
report_success_chunk d chunk_num fileid = do
  bits ← bitmap_of d fileid
  bits' ← set_bit bits chunk_num
  done (record d { bitmap_map = insert fileid bits' d.bitmap_map })

unfoldable pub report_failed_chunk : OwnerInfoMap → ChunkQueue → ℕ → String → Outcome ChunkQueue
report_failed_chunk owners q chunk_num fileid = do
  c ← get_priority owners (new_chunk failed fileid chunk_num) (negsuc 9)
  done (q ++ c ∷ [])

unfoldable pub report_no_owner_chunk : OwnerInfoMap → ChunkQueue → ℕ → String → Outcome ChunkQueue
report_no_owner_chunk owners q chunk_num fileid = do
  c ← get_priority owners (new_chunk noowner fileid chunk_num) (negsuc 19)
  done (q ++ c ∷ [])
