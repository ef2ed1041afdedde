-- ===== src/Client/Run/Copies/Tests.antt =====
-- A file with two copies, beside another, on a disk that is a list of paths with their bytes.
use mathlib.Core.Path.{subst}
use cool_down.Prelude.{
  ℕ, ◌≡◌, refl, sym, String, Option, none, some, List, [], ◌∷◌, true, false, All, ◌==◌, string_key,
  if◌then◌else◌, Bool-cases, inl, inr,
}
use cool_down.Prelude.Map.{Map, lookup, member}
use cool_down.Outcome.{Outcome, done, throw, exception, done-injective}
use cool_down.Client.LocalFiles.{FileSystem}
use cool_down.Client.Run.Finish.{Copying, copy_from, copy_entry, copy_same_files}
use cool_down.Client.Run.Copies.{IsCopying, AreApart, AreCopies, copy_same_files-AreCopies}

abbrev Paths : Type 0
Paths = List (String × List ℕ)

abbrev file_system : FileSystem
file_system = record {
  Disk = Paths;
  create_directories = λ path d. done d;
  exists = λ path d. done false;
  create_file = λ path d. done (d, true);
  set_size = λ path size d. done d;
}

write_copy : String → Paths → Option (List ℕ) → Outcome Paths
write_copy path d none = throw exception
write_copy path d (some bytes) = done ((path, bytes) ∷ d)

abbrev copying : Copying file_system
copying = record {
  parent = λ path. "/";
  copy_to = λ source path d. write_copy path d (lookup source d);
}

write_copy-lookup :
    (path : String) (d d' : Paths) (q : String) (o : Option (List ℕ))
    → write_copy path d o ≡ done d'
    → lookup q d' ≡ (if q == path then o else lookup q d)
unfolding write_copy lookup
write_copy-lookup path d d' q none h = cc
write_copy-lookup path d d' q (some bytes) h =
    let same : (path, bytes) ∷ d ≡ d' = done-injective h in rw (sym same) refl

copying-IsCopying : IsCopying file_system copying (λ d q. lookup q d)
copying-IsCopying = record {
  directories_kept = λ path d d' q h. let same : d ≡ d' = done-injective h in rw same refl;
  copied = λ source path d d' q h. write_copy-lookup path d d' q (lookup source d) h;
}

abbrev noted : Map String (List String)
noted = ("f", "/a" ∷ "/b" ∷ "/c" ∷ []) ∷ ("g", "/d" ∷ []) ∷ []

abbrev before : Paths
before = ("/a", 1 ∷ 2 ∷ []) ∷ ("/d", 3 ∷ []) ∷ []

noted-AreApart : AreApart noted
unfolding member
noted-AreApart = (
  refl,
  λ q among. elim (Bool-cases (q == "/d")) [
    | inl e ↦
        let wrong : false ≡ true =
          subst (λ (r : String). member r ("/a" ∷ "/b" ∷ "/c" ∷ []) ≡ true)
            ((string_key.beq_iff q "/d").0 e) among in
        cc
    | inr e ↦ rw e refl
  ],
  (refl, λ q among. refl, tt),
)

copy_same_files-AreCopies_example :
    All
      (λ (x : String × List String).
        AreCopies file_system copying
          (λ d q. lookup q d)
          copying-IsCopying
          before
          (("/c", 1 ∷ 2 ∷ []) ∷ ("/b", 1 ∷ 2 ∷ []) ∷ before)
          x.1)
      noted
unfolding copy_same_files copy_entry copy_from lookup write_copy
copy_same_files-AreCopies_example =
    copy_same_files-AreCopies file_system copying (λ d q. lookup q d) copying-IsCopying noted before
      (("/c", 1 ∷ 2 ∷ []) ∷ ("/b", 1 ∷ 2 ∷ []) ∷ before) noted-AreApart refl
