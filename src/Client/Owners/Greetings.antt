-- ===== src/Client/Owners/Greetings.antt =====
-- What a shake hand brings, with the peer's handler on the other side, and what an owner that cannot be
-- reached does to the job.
use cool_down.Prelude.{
  ℕ, ◌≡◌, refl, ap, String, Option, none, some, List, [], ◌∷◌, ◌++◌, Bool, true, false, arith,
  find?, length, ◌==◌, string_key, nat_key, nat_beq_refl, Bool-cases, Option-cases, inl, inr,
}
use cool_down.Prelude.Map.{lookup, contains, get_or-insert, beq_refl}
use cool_down.ErrorCode.{RetCode, is_ok}
use cool_down.Outcome.{
  Outcome, done, throw, assertion, done-injective, Outcome-cases, Returns, Returns-bind,
}
use cool_down.Messages.{Message, ShakeHand, FileInfo}
use cool_down.Client.SockManager.{
  SockManager, get_idle_client_sock, return_sock, is_connected, connect_client,
}
use cool_down.Client.LocalFiles.{has_file}
use cool_down.Client.JobInfo.{Bitmap, FileOwnerInfo, JobInfo, bitmap_of}
use cool_down.Client.Jobs.{Job, Jobs, get_job_by_fileid}
use cool_down.Client.TrackerCalls.{Exchange}
use cool_down.Client.Bitmaps.{
  Blocks, IsBlockwise, conver_transport_format_bitmap, convert_bitmap_to_transport_format,
  conver_transport_format_bitmap-convert,
}
use cool_down.Client.ConnectionHandler.{handle_shake_hand, describe, file_info}
use cool_down.Client.Owners.{
  Greeting, known_owners, request_clients, exchange_hands, client_shake_hand, set_bitmap, learn,
  hello, take_hand, shake_hand, greet, greet_all, reinit_file_owner_info,
}

abbrev is_owner : String → FileOwnerInfo → Bool
is_owner clientid o = o.clientid == clientid

-- The owner that the job knows under the client id, and what it has.
abbrev pub bitmap_of_owner : String → List FileOwnerInfo → Option Bitmap
bitmap_of_owner clientid os = elim (find? (is_owner clientid) os) [
  | none ↦ none
  | some o ↦ some o.bitmap
]

set_bitmap-bitmap :
    (clientid : String) (bits b : Bitmap) (os : List FileOwnerInfo)
    → bitmap_of_owner clientid os ≡ some b
    → Returns (λ os'. bitmap_of_owner clientid os' ≡ some bits) (set_bitmap clientid bits os)
unfolding set_bitmap
set_bitmap-bitmap clientid bits b [] e = cc
set_bitmap-bitmap clientid bits b (o ∷ os) e = ground (arith, set_bitmap-bitmap clientid bits b os)

module _ (boost : Blocks) (laws : IsBlockwise boost) where
  learn-bitmap :
      (j : JobInfo) (fileid clientid : String) (info : FileInfo) (bits b : Bitmap)
      (os : List FileOwnerInfo)
      → (info.file_bit, info.file_bit_count) ≡ convert_bitmap_to_transport_format boost bits
      → lookup fileid j.owner_info_map ≡ some os
      → bitmap_of_owner clientid os ≡ some b
      → Returns
          (λ j'. bitmap_of_owner clientid (known_owners j' fileid) ≡ some bits)
          (learn boost j fileid clientid info)
  unfolding learn convert_bitmap_to_transport_format
  learn-bitmap j fileid clientid info bits b os e listed known =
      let read : conver_transport_format_bitmap boost (info.file_bit, info.file_bit_count) ≡ bits =
        rw e (conver_transport_format_bitmap-convert boost laws bits) in
      let counted : info.file_bit_count ≡ length bits = ap (λ t. t.1) e in
      rw (listed, read, counted, nat_beq_refl (length bits), learn)
        (Returns-bind _ (set_bitmap clientid bits os) _ (set_bitmap-bitmap clientid bits b os known)
          λ os' k. rw (get_or-insert fileid fileid [] os' j.owner_info_map, beq_refl fileid) k)

  -- What the handler of a peer answers that has a job for the file.
  answered :
      (c : Jobs) (job : Job) (peer_id fileid : String) (mine : ShakeHand) (bits : Bitmap)
      → mine.info.file_id ≡ fileid
      → get_job_by_fileid c fileid ≡ some job
      → has_file job.info.local_files fileid ≡ true
      → lookup fileid job.info.download_info.bitmap_map ≡ some bits
      → Returns
          (λ out.
            (out.0 ≡ RetCode.ok)
            × (out.1.info.has_file ≡ true)
            × ((out.1.info.file_bit, out.1.info.file_bit_count)
                ≡ convert_bitmap_to_transport_format boost bits))
          (handle_shake_hand boost.to_block_range c peer_id (Message.shake_hand mine))
  unfolding handle_shake_hand describe file_info bitmap_of convert_bitmap_to_transport_format
  answered c job peer_id fileid mine bits same found has e = ground arith

  -- A job shakes hands with an owner that it knows and to whom it is connected, and the handler of that
  -- peer answers. If the peer has a job with the file, and the job has a bitmap to send, the call
  -- returns `ERROR_OK`, and the job then has the peer's own bitmap of the file for that owner.
  pub shake_hand-bitmap :
      (j : JobInfo) (m m1 m2 : SockManager) (c : Jobs) (job : Job)
      (self_id fileid clientid : String) (mine : ShakeHand) (reply : ShakeHand) (g : Greeting)
      (bits b : Bitmap) (os : List FileOwnerInfo) (sock : ℕ) (woken : Bool)
      → hello boost j self_id fileid ≡ done (Message.shake_hand mine)
      → mine.info.file_id ≡ fileid
      → lookup fileid j.owner_info_map ≡ some os
      → bitmap_of_owner clientid os ≡ some b
      → is_connected m clientid ≡ true
      → get_idle_client_sock m clientid g.fresh ≡ done (m1, some sock)
      → return_sock m1 clientid (some sock) ≡ done (m2, woken)
      → get_job_by_fileid c fileid ≡ some job
      → has_file job.info.local_files fileid ≡ true
      → lookup fileid job.info.download_info.bitmap_map ≡ some bits
      → handle_shake_hand boost.to_block_range c clientid (Message.shake_hand mine)
        ≡ done (RetCode.ok, reply)
      → g.exchange ≡ record {
        sent = RetCode.ok;
        received = RetCode.ok;
        reply = some (Message.shake_hand reply);
      }
      → Returns
          (λ out.
            (out.0 ≡ RetCode.ok)
            × (bitmap_of_owner clientid (known_owners out.1 fileid) ≡ some bits))
          (shake_hand boost j m self_id fileid clientid g)
  unfolding shake_hand client_shake_hand exchange_hands take_hand learn is_ok
  shake_hand-bitmap j m m1 m2 c job self_id fileid clientid mine reply g bits b os sock woken says
        about listed known connected lent given found has e answers over =
      let (_, offers, sent) =
        rw answers at (answered c job clientid fileid mine bits about found has e) in
      rw
        (
          says, connected, lent, given, over, offers, shake_hand, client_shake_hand, exchange_hands,
          take_hand,
        )
        (Returns-bind _ (learn boost j fileid clientid reply.info) _
          (learn-bitmap j fileid clientid reply.info bits b os sent listed known) λ j' k. (refl, k))

-- The exceptions of the call are failed assertions.
abbrev OnlyAsserts : {A : Type 0} → Outcome A → Type 0
OnlyAsserts (done a) = Unit
OnlyAsserts (throw e) = e ≡ assertion

hello-OnlyAsserts :
    (boost : Blocks) (j : JobInfo) (self_id fileid : String)
    → OnlyAsserts (hello boost j self_id fileid)
unfolding hello
hello-OnlyAsserts boost j self_id fileid =
    elim (Bool-cases (contains fileid j.download_info.percentage_map)) [
      | inl known ↦ elim (Option-cases (lookup fileid j.download_info.bitmap_map)) [
        | inl missing ↦ rw (known, missing, hello) refl
        | inr (bits, e) ↦ rw (known, e, hello) tt
      ]
      | inr unknown ↦ rw (unknown, hello) refl
    ]

connect_client-none : (m : SockManager) (clientid : String) → (connect_client m clientid none).0 ≡ m
unfolding connect_client
connect_client-none m clientid = ground arith

greet_unreachable :
    (boost : Blocks) (j : JobInfo) (m : SockManager) (self_id fileid : String) (o : FileOwnerInfo)
    (g : Greeting)
    → is_connected m o.clientid ≡ false
    → g.connection ≡ none
    → greet boost self_id fileid o g (j, m) ≡ throw assertion
unfolding greet shake_hand client_shake_hand
greet_unreachable boost j m self_id fileid o g away none_made =
    go (hello boost j self_id fileid) refl (hello-OnlyAsserts boost j self_id fileid)
  where
    same : (connect_client m o.clientid none).0 ≡ m
    same = connect_client-none m o.clientid

    go :
        (out : Outcome Message)
        → hello boost j self_id fileid ≡ out
        → OnlyAsserts out
        → greet boost self_id fileid o g (j, m) ≡ throw assertion
    go (done msg) e _ =
        rw (away, none_made, same, e, away, greet, shake_hand, client_shake_hand) refl
    go (throw f) e k = rw (away, none_made, same, e, k, greet, shake_hand) refl

greet_all-append :
    (boost : Blocks) (self_id fileid : String) (os : List FileOwnerInfo) (gs : List Greeting)
    (o : FileOwnerInfo) (ps : List FileOwnerInfo) (g : Greeting) (hs : List Greeting)
    (s s' : JobInfo × SockManager)
    → length gs ≡ length os
    → greet_all boost self_id fileid os gs s ≡ done s'
    → greet_all boost self_id fileid (os ++ o ∷ ps) (gs ++ g ∷ hs) s
      ≡ greet_all boost self_id fileid (o ∷ ps) (g ∷ hs) s'
unfolding greet_all
greet_all-append boost self_id fileid [] [] o ps g hs s s' l e =
    ap (greet_all boost self_id fileid (o ∷ ps) (g ∷ hs)) (done-injective e)
greet_all-append boost self_id fileid [] (h ∷ gs) o ps g hs s s' l e = cc
greet_all-append boost self_id fileid (p ∷ os) [] o ps g hs s s' l e = cc
greet_all-append boost self_id fileid (p ∷ os) (h ∷ gs) o ps g hs s s' l e =
    elim (Outcome-cases (greet boost self_id fileid p h s)) [
      | inl (s1, k) ↦
          rw (greet_all, k)
            (greet_all-append boost self_id fileid os gs o ps g hs s1 s' (omega (arith, l))
              (rw (greet_all, k) at e))
      | inr (f, k) ↦ let wrong : throw f ≡ done s' = rw (greet_all, k) at e in cc
    ]

-- The tracker has answered, and the owners that are listed for the file are greeted in order. The
-- greetings of the first of them, if any, have not thrown; to the next one there is no connection, and
-- none can be made. The code of `connect_client` is only logged, so that the assertion of the shake
-- hand fails and the exception leaves the search for owners, whoever is listed after that.
pub reinit_file_owner_info_unreachable :
    (boost : Blocks) (j j' j'' : JobInfo) (m m' : SockManager) (self_id fileid : String)
    (x : Exchange) (os : List FileOwnerInfo) (gs : List Greeting) (o : FileOwnerInfo)
    (ps : List FileOwnerInfo) (g : Greeting) (hs : List Greeting)
    → request_clients j m fileid x ≡ done (RetCode.ok, j')
    → known_owners j' fileid ≡ os ++ o ∷ ps
    → length gs ≡ length os
    → greet_all boost self_id fileid os gs (j', m) ≡ done (j'', m')
    → is_connected m' o.clientid ≡ false
    → g.connection ≡ none
    → reinit_file_owner_info boost self_id fileid x (gs ++ g ∷ hs) (j, m) ≡ throw assertion
unfolding reinit_file_owner_info is_ok greet_all
reinit_file_owner_info_unreachable boost j j' j'' m m' self_id fileid x os gs o ps g hs asked named
      paired greeted away none_made =
    let thrown : greet_all boost self_id fileid (o ∷ ps) (g ∷ hs) (j'', m') ≡ throw assertion =
      rw (greet_all, greet_unreachable boost j'' m' self_id fileid o g away none_made) refl in
    rw
      (
        asked,
        reinit_file_owner_info,
        named,
        greet_all-append boost self_id fileid os gs o ps g hs (j', m) (j'', m') paired greeted,
        thrown,
      )
      refl
