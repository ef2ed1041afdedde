-- ===== src/Client/MakeTorrent/Listing.antt =====
-- client/src/client.cc: `CoolClient::list_dir_recursive`. What the file system has at a path, with
-- what `canRead` answers; a directory lists its entries, or listing it raises an exception.
use cool_down.Prelude.{
  ℕ, ◌≡◌, refl, sym, ◌⊎◌, inl, inr, ◌↔◌, String, List, [], ◌∷◌, ◌++◌, Bool, true, false, All,
}
use mathlib.Core.Path.{subst}
use cool_down.Outcome.{
  Outcome, done, throw, exception, ◌>>=◌, WhenDone, WhenDone-bind, WhenDone-map,
}

pub record SourceFile : Type 0 where
  pub parent : String
  pub filename : String
  pub content : List ℕ

mutual
  pub data Entry : Type 0 where
    file : Bool → SourceFile → Entry
    directory : Bool → Listing → Entry
    unlistable : Bool → Entry
    other : Bool → Entry

  pub data Listing : Type 0 where
    nil : Listing
    cons : Entry → Listing → Listing

unfoldable mutual
  -- The loop over what `list` gave.
  pub list_dir_recursive : Listing → List SourceFile → Outcome (List SourceFile)
  list_dir_recursive nil found = done found
  list_dir_recursive (cons e l) found = list_entry e found >>= λ more. list_dir_recursive l more

  -- The body of the loop.
  pub list_entry : Entry → List SourceFile → Outcome (List SourceFile)
  list_entry (file true f) found = done (found ++ f ∷ [])
  list_entry (directory true l) found = list_dir_recursive l found
  list_entry (unlistable true) found = throw exception
  list_entry (other true) found = done found
  list_entry (file false f) found = done found
  list_entry (directory false l) found = done found
  list_entry (unlistable false) found = done found
  list_entry (other false) found = done found

-- The files that MakeTorrent goes through. What is no file is listed.
unfoldable pub source_files : Entry → Outcome (List SourceFile)
unfolding list_dir_recursive
source_files (file can_read f) = done (f ∷ [])
source_files (directory can_read l) = list_dir_recursive l []
source_files (unlistable can_read) = throw exception
source_files (other can_read) = throw exception

unfoldable mutual
  -- The file stands in the listing or below it, and all on the way to it can be read.
  pub Within : SourceFile → Listing → Type 0
  Within f nil = ⊥
  Within f (cons e l) = IsAt f e ⊎ Within f l

  pub IsAt : SourceFile → Entry → Type 0
  IsAt f (file true g) = f ≡ g
  IsAt f (directory true l) = Within f l
  IsAt f (file false g) = ⊥
  IsAt f (directory false l) = ⊥
  IsAt f (unlistable can_read) = ⊥
  IsAt f (other can_read) = ⊥

-- The files found are the earlier ones and these.
abbrev AllOf : (SourceFile → Type 0) → List SourceFile → (SourceFile → Type 0) → Type 0
AllOf P found at = All P found × ((f : SourceFile) → at f → P f)

module _ (P : SourceFile → Type 0) where
  All-one :
      (f : SourceFile) (found : List SourceFile)
      → All P (found ++ f ∷ []) ↔ AllOf P found (λ g. g ≡ f)
  All-one f [] = (λ (p, _). (tt, λ g e. subst P (sym e) p), λ (_, h). (h f refl, tt))
  All-one f (g ∷ found) = (
    λ (p, ps). let (qs, h) = (All-one f found).0 ps in ((p, qs), h),
    λ ((p, ps), h). (p, (All-one f found).1 (ps, h)),
  )

  All-none : (found : List SourceFile) → All P found ↔ AllOf P found (λ g. ⊥)
  All-none found = (λ h. (h, λ f w. absurd w), λ (h, _). h)

  mutual
    unfolding list_dir_recursive Within

    -- Whatever a property is, when the listing ends it holds of every file found exactly when it holds
    -- of every file that was there before, and of every file in the directory or below it to which
    -- all on the way can be read.
    pub list_dir_recursive-all :
        (l : Listing) (found : List SourceFile)
        → WhenDone
            (λ more. All P more ↔ AllOf P found (λ f. Within f l))
            (list_dir_recursive l found)
    list_dir_recursive-all nil found = All-none found
    list_dir_recursive-all (cons e l) found =
        WhenDone-bind (λ more. All P more ↔ AllOf P found (λ f. IsAt f e ⊎ Within f l))
          (list_entry e found) (λ more. list_dir_recursive l more) (list_entry-all e found)
          (λ mid h.
            let first_and_rest : (more : List SourceFile)
                → (All P more ↔ AllOf P mid (λ f. Within f l))
                → (All P more ↔ AllOf P found (λ f. IsAt f e ⊎ Within f l)) =
              λ more k. (
                λ ps.
                    let (qs, rest) = k.0 ps in
                    let (rs, first) = h.0 qs in
                    (rs, λ f w. elim w [ inl a ↦ first f a | inr b ↦ rest f b ]),
                λ (ps, q). k.1 (h.1 (ps, λ f a. q f (inl a)), λ f b. q f (inr b)),
              ) in
            WhenDone-map first_and_rest (list_dir_recursive l mid) (list_dir_recursive-all l mid))

    list_entry-all :
        (e : Entry) (found : List SourceFile)
        → WhenDone (λ more. All P more ↔ AllOf P found (λ f. IsAt f e)) (list_entry e found)
    list_entry-all (file true f) found = All-one f found
    list_entry-all (directory true l) found = list_dir_recursive-all l found
    list_entry-all (unlistable true) found = tt
    list_entry-all (other true) found = All-none found
    list_entry-all (file false f) found = All-none found
    list_entry-all (directory false l) found = All-none found
    list_entry-all (unlistable false) found = All-none found
    list_entry-all (other false) found = All-none found
