-- ===== src/Client/Run/Copies.antt =====
-- What the copies at the end of `Job::run` leave on the disk.
mod Tests
use cool_down.Prelude.{
  ℕ, ◌≡◌, refl, sym, ap, ◌∙◌, String, Option, List, [], ◌∷◌, ◌++◌, Bool, true, false, All, ◌==◌,
  ◌||◌, string_key, Bool-cases, inl, inr, if◌then◌else◌, arith,
}
use cool_down.Prelude.Map.{Map, member}
use cool_down.Outcome.{Outcome, done, throw, ◌>>=◌, >>=-eq-done, done-injective}
use cool_down.Client.LocalFiles.{FileSystem}
use cool_down.Client.Run.Finish.{Copying, copy_from, copy_entry, copy_same_files}

member-append :
    (q : String) (xs ys : List String) → member q (xs ++ ys) ≡ (member q xs || member q ys)
unfolding member
member-append q [] ys = refl
member-append q (x ∷ xs) ys = ground (arith, member-append q xs ys)

-- What is documented of the file system: the bytes at a path, which only a copy to that path changes.
pub record IsCopying (fs : FileSystem) (copying : Copying fs)
    (content : fs.Disk → String → Option (List ℕ)) : Type 0 where
  pub directories_kept :
      (path : String) (d d' : fs.Disk) (q : String)
      → fs.create_directories path d ≡ done d'
      → content d' q ≡ content d q
  pub copied :
      (source path : String) (d d' : fs.Disk) (q : String)
      → copying.copy_to source path d ≡ done d'
      → content d' q ≡ (if q == path then content d source else content d q)

abbrev pub all_paths : Map String (List String) → List String
all_paths [] = []
all_paths ((_, paths) ∷ entries) = paths ++ all_paths entries

-- No path stands at the head and among the rest of an entry, or in two entries.
abbrev pub FirstApart : List String → Type 0
FirstApart [] = Unit
FirstApart (source ∷ paths) = member source paths ≡ false

abbrev pub AreApart : Map String (List String) → Type 0
AreApart [] = Unit
AreApart ((_, paths) ∷ entries) =
    FirstApart paths
    × ((q : String) → member q paths ≡ true → member q (all_paths entries) ≡ false)
    × AreApart entries

module _ (fs : FileSystem) (copying : Copying fs) (content : fs.Disk → String → Option (List ℕ))
    (laws : IsCopying fs copying content) where
  open fs use {Disk, create_directories}
  open copying use {parent, copy_to}

  -- One turn of the loop over the paths.
  copy_one :
      (source path : String) (paths : List String) (d d' : Disk)
      → copy_from fs copying source (path ∷ paths) d ≡ done d'
      → (e : Disk) × (copy_from fs copying source paths e ≡ done d')
        × ((q : String) → content e q ≡ (if q == path then content d source else content d q))
  unfolding copy_from
  copy_one source path paths d d' h =
      let (made, dirs, h1) = >>=-eq-done (create_directories (parent path) d) _ h in
      let (e, put, h2) = >>=-eq-done (copy_to source path made) _ h1 in
      (
        e,
        h2,
        λ q.
            laws.copied source path made e q put
            ∙ rw
                (
                  laws.directories_kept (parent path) d made source dirs,
                  laws.directories_kept (parent path) d made q dirs,
                )
                refl,
      )

  copy_from_kept :
      (source : String) (paths : List String) (d d' : Disk) (q : String)
      → copy_from fs copying source paths d ≡ done d'
      → member q paths ≡ false
      → content d' q ≡ content d q
  unfolding copy_from member
  copy_from_kept source [] d d' q h out = let same : d ≡ d' = done-injective h in rw same refl
  copy_from_kept source (path ∷ paths) d d' q h out =
      let (e, rest, step) = copy_one source path paths d d' h in
      let other : (q == path) ≡ false = ground arith in
      let later : member q paths ≡ false = ground arith in
      copy_from_kept source paths e d' q rest later ∙ step q ∙ rw other refl

  copy_from_copied :
      (source : String) (paths : List String) (d d' : Disk) (q : String)
      → copy_from fs copying source paths d ≡ done d'
      → member source paths ≡ false
      → member q paths ≡ true
      → content d' q ≡ content d source
  unfolding copy_from member
  copy_from_copied source [] d d' q h apart among = cc
  copy_from_copied source (path ∷ paths) d d' q h apart among =
      let (e, rest, step) = copy_one source path paths d d' h in
      let other : (source == path) ≡ false = ground arith in
      let later : member source paths ≡ false = ground arith in
      let kept : content e source ≡ content d source = step source ∙ rw other refl in
      elim (Bool-cases (member q paths)) [
        | inl more ↦ copy_from_copied source paths e d' q rest later more ∙ kept
        | inr last ↦
            let here : (q == path) ≡ true = ground arith in
            copy_from_kept source paths e d' q rest last ∙ step q ∙ rw here refl
      ]

  -- The copies of an entry are the first file.
  abbrev pub AreCopies : Disk → Disk → List String → Type 0
  AreCopies d d' [] = Unit
  AreCopies d d' (source ∷ paths) =
      (q : String) → member q (source ∷ paths) ≡ true → content d' q ≡ content d source

  copy_entry_kept :
      (paths : List String) (d d' : Disk) (q : String)
      → copy_entry fs copying paths d ≡ done d'
      → member q paths ≡ false
      → content d' q ≡ content d q
  unfolding copy_entry member
  copy_entry_kept [] d d' q h out = cc
  copy_entry_kept (source ∷ paths) d d' q h out =
      copy_from_kept source paths d d' q h (ground arith)

  copy_entry_copies :
      (paths : List String) (d d' : Disk)
      → copy_entry fs copying paths d ≡ done d'
      → FirstApart paths
      → AreCopies d d' paths
  unfolding copy_entry member
  copy_entry_copies [] d d' h apart = tt
  copy_entry_copies (source ∷ paths) d d' h apart = λ q among. elim (Bool-cases (member q paths)) [
    | inl more ↦ copy_from_copied source paths d d' q h apart more
    | inr first ↦
        let here : (q == source) ≡ true = ground arith in
        rw ((string_key.beq_iff q source).0 here) (copy_from_kept source paths d d' source h apart)
  ]

  -- One turn of the loop over the entries.
  copy_same_one :
      (fileid : String) (paths : List String) (entries : Map String (List String)) (d d' : Disk)
      → copy_same_files fs copying ((fileid, paths) ∷ entries) d ≡ done d'
      → (e : Disk) × (copy_entry fs copying paths d ≡ done e)
        × (copy_same_files fs copying entries e ≡ done d')
  unfolding copy_same_files
  copy_same_one fileid paths entries d d' h = >>=-eq-done (copy_entry fs copying paths d) _ h

  copy_same_kept :
      (entries : Map String (List String)) (d d' : Disk) (q : String)
      → copy_same_files fs copying entries d ≡ done d'
      → member q (all_paths entries) ≡ false
      → content d' q ≡ content d q
  unfolding copy_same_files
  copy_same_kept [] d d' q h out = let same : d ≡ d' = done-injective h in rw same refl
  copy_same_kept ((fileid, paths) ∷ entries) d d' q h out =
      let (e, one, rest) = copy_same_one fileid paths entries d d' h in
      let both = member-append q paths (all_paths entries) in
      copy_same_kept entries e d' q rest (ground arith)
      ∙ copy_entry_kept paths d e q one (ground arith)

  -- Where the earlier disk has the same first files, the copies are copies of these.
  copies_of_earlier :
      (es : Map String (List String)) (d e d' : Disk)
      → ((q : String) → member q (all_paths es) ≡ true → content e q ≡ content d q)
      → All (λ (x : String × List String). AreCopies e d' x.1) es
      → All (λ (x : String × List String). AreCopies d d' x.1) es
  unfolding member
  copies_of_earlier [] d e d' same h = tt
  copies_of_earlier ((fileid, []) ∷ es) d e d' same (h, hs) =
      (tt, copies_of_earlier es d e d' same hs)
  copies_of_earlier ((fileid, source ∷ paths) ∷ es) d e d' same (h, hs) =
      let itself : (source == source) ≡ true = (string_key.beq_iff source source).1 refl in
      (
        λ q among. h q among ∙ same source (rw itself refl),
        copies_of_earlier es d e d'
            (λ q among.
              same q (let both = member-append q (source ∷ paths) (all_paths es) in ground arith))
            hs,
      )

  -- If the copies at the end of a job end, and no path is noted twice, every path that is noted for a
  -- file id has at the end the bytes that the path that was noted first for it had before.
  pub copy_same_files-AreCopies :
      (entries : Map String (List String)) (d d' : Disk)
      → AreApart entries
      → copy_same_files fs copying entries d ≡ done d'
      → All (λ (x : String × List String). AreCopies d d' x.1) entries
  copy_same_files-AreCopies [] d d' apart h = tt
  copy_same_files-AreCopies ((fileid, paths) ∷ entries) d d' (first, others, apart) h =
      let (e, one, rest) = copy_same_one fileid paths entries d d' h in
      (
        kept paths (λ q among. copy_same_kept entries e d' q rest (others q among))
            (copy_entry_copies paths d e one first),
        copies_of_earlier entries d e d'
            (λ q among. copy_entry_kept paths d e q one (elim (Bool-cases (member q paths)) [
              | inl twice ↦ let out = others q twice in cc
              | inr out ↦ out
            ]))
            (copy_same_files-AreCopies entries e d' apart rest),
      )
    where
      kept :
          (ps : List String) {e : Disk}
          → ((q : String) → member q ps ≡ true → content d' q ≡ content e q)
          → AreCopies d e ps
          → AreCopies d d' ps
      kept [] same h = tt
      kept (source ∷ ps) same h = λ q among. same q among ∙ h q among
