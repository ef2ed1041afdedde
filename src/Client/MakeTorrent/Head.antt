-- ===== src/Client/MakeTorrent/Head.antt =====
-- The tracker of a torrent that was made.
use mathlib.Core.Path.{subst}
use cool_down.Prelude.{
  ◌≡◌, refl, ℕ, String, Option, some, none, List, [], Bool, true, false, inl, inr,
}
use cool_down.ErrorCode.{RetCode}
use cool_down.Outcome.{Outcome, done, throw, Outcome-cases}
use cool_down.Client.Torrent.{Torrent}
use cool_down.Client.Verification.{DigestEngine, get_verification_code}
use cool_down.Client.MakeTorrent.{after, make_torrent, process_files, write, finish, Loop}
use cool_down.Client.MakeTorrent.Listing.{Entry, source_files}

-- A value has the property, if there is one.
abbrev Gives : {A : Type 0} → (A → Type 0) → Option (Outcome A) → Type 0
Gives P none = Unit
Gives P (some (throw e)) = Unit
Gives P (some (done a)) = P a

abbrev IsNamed : String → RetCode × Option Torrent → Type 0
IsNamed address (ret, none) = Unit
IsNamed address (ret, some t) = t.tracker_address ≡ address

write-Gives :
    (address : String) (t : Torrent) (opened serialized : Bool)
    → t.tracker_address ≡ address
    → Gives (IsNamed address) (some (write t opened serialized))
write-Gives address t false serialized h = tt
write-Gives address t true false h = tt
write-Gives address t true true h = h

after-Gives :
    {A B : Type 0} (P : B → Type 0) (x : Option (Outcome A)) (k : A → Option (Outcome B))
    → ((a : A) → Gives P (k a))
    → Gives P (after x k)
after-Gives P none k h = tt
after-Gives P (some (throw e)) k h = tt
after-Gives P (some (done a)) k h = h a

module _ (sha : DigestEngine) where
  open sha use {Engine}

  finish-Gives :
      (P : RetCode × Option Torrent → Type 0) (head : Torrent) (bytes_of : String → List ℕ)
      (l : Loop sha) (e : Engine)
      (k : Torrent × Engine → Option (Outcome (RetCode × Option Torrent)))
      → ((t : Torrent) (e' : Engine)
          → t.tracker_address ≡ head.tracker_address
          → Gives P (k (t, e')))
      → Gives P (after (some (finish sha head bytes_of (l, e))) k)
  finish-Gives P head bytes_of (entries, id_source, total) e k h =
      elim (Outcome-cases (get_verification_code sha (bytes_of id_source) e)) [
        | inl ((id, e''), g) ↦ rw (finish, g) (h _ e'' refl)
        | inr (f, g) ↦ rw (finish, g) tt
      ]

  make_torrent-Gives :
      (exists : Bool) (f : Entry) (top_path : String) (size : ℕ) (head : Torrent)
      (bytes_of : String → List ℕ) (opened serialized : Bool) (e : Engine)
      → Gives
          (IsNamed head.tracker_address)
          (make_torrent sha exists f top_path size head bytes_of opened serialized e)
  unfolding make_torrent
  make_torrent-Gives false f top_path size head bytes_of opened serialized e = tt
  make_torrent-Gives true f top_path size head bytes_of opened serialized e =
      let P = IsNamed head.tracker_address in
      after-Gives P (some (source_files f)) _ (λ files.
        after-Gives P (process_files sha top_path size files ([], "", 0) e) _ (λ (l, e').
          finish-Gives P head bytes_of l e' _
            (λ t e'' named. write-Gives head.tracker_address t opened serialized named)))

  -- A torrent that MakeTorrent has written has the tracker that it was called with.
  pub make_torrent_tracker :
      (exists : Bool) (f : Entry) (top_path : String) (size : ℕ) (head : Torrent)
      (bytes_of : String → List ℕ) (opened serialized : Bool) (e : Engine) (ret : RetCode)
      (torrent : Torrent)
      → make_torrent sha exists f top_path size head bytes_of opened serialized e
        ≡ some (done (ret, some torrent))
      → torrent.tracker_address ≡ head.tracker_address
  make_torrent_tracker exists f top_path size head bytes_of opened serialized e ret torrent h =
      subst (Gives (IsNamed head.tracker_address)) h
        (make_torrent-Gives exists f top_path size head bytes_of opened serialized e)
