-- ===== src/Client/Run/Finish.antt =====
-- client/src/job.cc: what `Job::run` does once its tasks have ended. The copies of a file are made from
-- the path that was noted first.
use cool_down.Prelude.{String, List, [], ◌∷◌}
use cool_down.Prelude.Map.{Map}
use cool_down.Outcome.{Outcome, done, throw, undefined, ◌>>=◌}
use cool_down.Client.LocalFiles.{FileSystem}

-- What this part calls of the file system besides.
pub record Copying (fs : FileSystem) : Type 0 where
  pub parent : String → String
  pub copy_to : String → String → fs.Disk → Outcome (fs.Disk)

module _ (fs : FileSystem) (copying : Copying fs) where
  open fs use {Disk, create_directories}
  open copying use {parent, copy_to}

  unfoldable pub copy_from : String → List String → Disk → Outcome Disk
  copy_from source [] disk = done disk
  copy_from source (path ∷ paths) disk = do
    made ← create_directories (parent path) disk
    copied ← copy_to source path made
    copy_from source paths copied

  -- One entry of the map; there is no first path in an empty list.
  unfoldable pub copy_entry : List String → Disk → Outcome Disk
  copy_entry [] disk = throw undefined
  copy_entry (source ∷ paths) disk = copy_from source paths disk

  unfoldable pub copy_same_files : Map String (List String) → Disk → Outcome Disk
  copy_same_files [] disk = done disk
  copy_same_files ((_, paths) ∷ entries) disk = do
    disk' ← copy_entry paths disk
    copy_same_files entries disk'
