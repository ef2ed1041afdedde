-- ===== src/Client/Distribution.antt =====
-- A file on its way from the client that publishes it to one that downloads it: the pieces that
-- `MakeTorrent` (client/src/client.cc) writes into the torrent, and the tasks of
-- client/src/download_task.cc that fill the file of the other client.
pub mod Filled
pub mod Layout
pub mod Same
pub mod Served
mod Tests
use cool_down.Prelude.{ℕ, ◌≡◌, ◌⊎◌, List, [], ◌∷◌}
use cool_down.Prelude.Int.{pos}
use cool_down.Outcome.{Outcome, Fault, done, throw}
use cool_down.Client.Torrent.{TorrentFileInfo}
use cool_down.Client.TrackerCalls.{Exchange}
use cool_down.Client.Verification.{DigestEngine}
use cool_down.Client.Transfer.{Round, Status, running, finished, download_task}

-- The position is among these.
abbrev pub Covers : ℕ → List ℕ → Type 0
Covers i [] = ⊥
Covers i (j ∷ is) = (i ≡ j) ⊎ Covers i is

module _ (sha : DigestEngine) (info : TorrentFileInfo) where
  open sha use {Engine}

  -- A run of tasks for a file, in the order in which they end: each asks a peer of its own, which
  -- sends what it likes. The positions are those of the tasks that finished; a task that ended
  -- otherwise has not written to the file, or is still running.
  pub data Downloaded (file : List ℕ) : List ℕ → List ℕ → Type 0 where
    at_first : Downloaded file [] file
    chunk_finished :
        {is f f' : List ℕ}
        → Downloaded file is f
        → (i : ℕ) (x : Exchange) (peer : List ℕ) (rounds : List Round) (e : Engine)
        → download_task sha info (pos i) x peer rounds e f ≡ done (finished, f')
        → Downloaded file (i ∷ is) f'
    chunk_failed :
        {is f : List ℕ}
        → Downloaded file is f
        → (i : ℕ) (x : Exchange) (peer : List ℕ) (rounds : List Round) (e : Engine) (fault : Fault)
        → download_task sha info (pos i) x peer rounds e f ≡ throw fault
        → Downloaded file is f
    chunk_running :
        {is f f' : List ℕ}
        → Downloaded file is f
        → (i : ℕ) (x : Exchange) (peer : List ℕ) (rounds : List Round) (e : Engine)
        → download_task sha info (pos i) x peer rounds e f ≡ done (running, f')
        → Downloaded file is f'
