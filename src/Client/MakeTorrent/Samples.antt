-- ===== src/Client/MakeTorrent/Samples.antt =====
-- A file of three bytes.
use cool_down.Prelude.{[], ◌∷◌}
use cool_down.Client.MakeTorrent.Listing.{SourceFile}

abbrev pub three : SourceFile
three = record { parent = "/top/"; filename = "a"; content = 1 ∷ 2 ∷ 3 ∷ [] }
