-- ===== src/Tracker/Directory/Conditions.antt =====
-- The WHERE clause of a search against what the tracker promises.
use cool_down.Prelude.{
  ◌≡◌, refl, ap, ◌∙◌, ℕ, ◌<◌, String, List, [], ◌∷◌, map, false, length, All, string_key, inl, inr,
  arith,
}
use cool_down.Prelude.Int.{ℤ}
use cool_down.Prelude.Map.{member}
use cool_down.Outcome.{done}
use cool_down.Tracker.Database.{
  PeerRow, Session, SearchType, client_is_not, IsPlain, search_conditions,
  search_conditions-IsSpliced,
}
use cool_down.Tracker.Directory.{Directory, IsRelational, IsMatch, Meets, AreDistinct, HasRow}

no_other :
    (d : Directory) (k o : String) (p : ℤ) (others : List String)
    → All (Meets d k p o) (map client_is_not others)
    → member o others ≡ false
unfolding member
no_other d k o p [] h = refl
no_other d k o p (j ∷ js) (n, h) = rw (n, no_other d k o p js h) refl

none_excluded :
    (d : Directory) (k : String) (p : ℤ) (others : List String)
    → member k others ≡ false
    → All (Meets d k p k) (map client_is_not others)
unfolding member
none_excluded d k p [] h = tt
none_excluded d k p (j ∷ js) h = (ground arith, none_excluded d k p js (ground arith))

-- The clause of the search says what a match is.
pub Meets-IsMatch :
    (d : Directory) (t : SearchType) (f : String) (q : ℤ) (others : List String) (k o : String)
    (p : ℤ)
    → All (Meets d k p o) (search_conditions t f q others)
    → IsMatch d t f q others k p
unfolding search_conditions
Meets-IsMatch d t f q others k o p (has_it, (same, (on, (fits, new)))) =
    (on, ap (d.progress f) same ∙ has_it, fits, rw (← same) at (no_other d k o p others new))

pub IsMatch-Meets :
    (d : Directory) (t : SearchType) (f : String) (q : ℤ) (others : List String) (k : String)
    (p : ℤ)
    → IsMatch d t f q others k p
    → All (Meets d k p k) (search_conditions t f q others)
unfolding search_conditions
IsMatch-Meets d t f q others k p (on, has_it, fits, new) =
    (has_it, (refl, (on, (fits, none_excluded d k p others new))))

module _ (mysql : Session) (view : mysql.Db → Directory) (laws : IsRelational mysql view)
    (t : SearchType) (f : String) (q : ℤ) (others : List String) (limit : ℕ) (db : mysql.Db)
    (rows : List PeerRow) (plain : IsPlain f) (plain_others : All IsPlain others)
    (s : mysql.select_owners (search_conditions t f q others) limit db ≡ done rows) where
  rows-IsMatch :
      (rs : List PeerRow)
      → All
          (λ (r : PeerRow).
            (o : String) × All
              (Meets (view db) r.clientid r.percentage o)
              (search_conditions t f q others))
          rs
      → All (λ (r : PeerRow). IsMatch (view db) t f q others r.clientid r.percentage) rs
  rows-IsMatch [] h = tt
  rows-IsMatch (r ∷ rs) ((o, m), h) =
      (Meets-IsMatch (view db) t f q others r.clientid o r.percentage m, rows-IsMatch rs h)

  pub select_matches :
      All (λ (r : PeerRow). IsMatch (view db) t f q others r.clientid r.percentage) rows
  select_matches = rows-IsMatch rows (
      laws.select_meets (search_conditions t f q others) limit db rows
        (search_conditions-IsSpliced t f q others plain plain_others) s)

  pub select_distinct : AreDistinct rows
  unfolding search_conditions
  select_distinct =
      laws.select_distinct (search_conditions t f q others) limit db rows f
        (search_conditions-IsSpliced t f q others plain plain_others) (inr (inl refl)) (inl refl) s

  pub select_complete :
      (k : String) (p : ℤ)
      → length rows < limit
      → IsMatch (view db) t f q others k p
      → HasRow k rows
  select_complete k p l m =
      laws.select_complete (search_conditions t f q others) limit db rows k k f p
        (search_conditions-IsSpliced t f q others plain plain_others) s l m.0 m.1
        (IsMatch-Meets (view db) t f q others k p m)
