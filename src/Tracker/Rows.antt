-- ===== src/Tracker/Rows.antt =====
-- The loop over the rows of a search.
use cool_down.Prelude.{suc, ◌≡◌, refl, ap, List, [], ◌∷◌, ◌++◌, length, All, string_key}
use cool_down.Tracker.Database.{PeerRow, cursor_loop, cursor_rows}

cursor_loop-last :
    (first : PeerRow) (rest : List PeerRow) (last : PeerRow)
    → cursor_loop first (rest ++ last ∷ []) ≡ rest ++ last ∷ last ∷ []
unfolding cursor_loop
cursor_loop-last first [] last = refl
cursor_loop-last first (r ∷ rest) last = ap (◌∷◌ r) (cursor_loop-last r rest last)

-- When a search finds at least two rows, the loop over them leaves out the first row and gives the
-- last one twice.
pub cursor_rows_lem :
    (first : PeerRow) (rest : List PeerRow) (last : PeerRow)
    → cursor_rows (first ∷ rest ++ last ∷ []) ≡ rest ++ last ∷ last ∷ []
unfolding cursor_rows
cursor_rows_lem first rest last = cursor_loop-last first rest last

length-cursor_loop : (r : PeerRow) (rs : List PeerRow) → length (cursor_loop r rs) ≡ suc (length rs)
unfolding cursor_loop
length-cursor_loop r [] = refl
length-cursor_loop r (s ∷ rs) = ap suc (length-cursor_loop s rs)

pub length-cursor_rows : (rs : List PeerRow) → length (cursor_rows rs) ≡ length rs
unfolding cursor_rows
length-cursor_rows [] = refl
length-cursor_rows (r ∷ rs) = length-cursor_loop r rs

All-cursor_loop :
    (P : PeerRow → Type 0) (r : PeerRow) (rs : List PeerRow)
    → P r
    → All P rs
    → All P (cursor_loop r rs)
unfolding cursor_loop
All-cursor_loop P r [] p ps = (p, tt)
All-cursor_loop P r (s ∷ rs) p (q, qs) = (q, All-cursor_loop P s rs q qs)

pub All-cursor_rows : (P : PeerRow → Type 0) (rs : List PeerRow) → All P rs → All P (cursor_rows rs)
unfolding cursor_rows
All-cursor_rows P [] h = tt
All-cursor_rows P (r ∷ rs) (p, ps) = All-cursor_loop P r rs p ps
