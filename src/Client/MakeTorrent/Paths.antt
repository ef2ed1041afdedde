-- ===== src/Client/MakeTorrent/Paths.antt =====
-- client/src/client.cc: the relative path of `MakeTorrent`.
use Prim.Native.String.{String, [], ◌∷◌}
use Prim.Native.Char.{code}
use cool_down.Prelude.{◌==◌, nat_key, if◌then◌else◌}

-- What `mismatch(top_path.begin(), top_path.end(), abs_path.begin())` leaves of `abs_path`. Each file
-- is below the top, so that its path is not the shorter one.
abbrev pub relative_to : String → String → String
relative_to [] abs = abs
relative_to (c ∷ top) [] = []
relative_to (c ∷ top) (d ∷ abs) =
    let rest = relative_to top abs in if code c == code d then rest else d ∷ abs
