-- ===== src/Tracker/Directory/Tables.antt =====
-- A small database for the tests: logs of who came and went and of what was reported, the newest entry
-- first. It meets the assumed laws.
use cool_down.Prelude.{
  ℕ, zero, suc, ◌<◌, ◌≡◌, ◌≢◌, refl, sym, ap, ◌∙◌, inl, inr, String, Option, none, some, List, [],
  ◌∷◌, Bool, true, false, not, length, All, ◌==◌, ◌&&◌, string_key, Bool-cases, Option-cases,
  if◌then◌else◌, arith, some-injective,
}
use cool_down.Prelude.Int.{ℤ, pos}
use cool_down.Prelude.Map.{member}
use cool_down.Tracker.Database.{PeerRow, SearchType}
use cool_down.Tracker.Directory.{Directory, IsMatch, AreDistinct, HasRow, matches}

pub record Tables : Type 0 where
  pub log : List (String × Bool)
  pub owners : List (String × String × ℤ)

unfoldable pub seen : String → List (String × Bool) → Bool
seen k [] = false
seen k ((c, b) ∷ l) = if k == c then b else seen k l

unfoldable pub held : String → String → List (String × String × ℤ) → Option ℤ
held f k [] = none
held f k ((g, c, p) ∷ l) = if f == g && k == c then some p else held f k l

unfoldable pub directory : Tables → Directory
unfolding seen held
directory t = record { online = λ k. seen k t.log; progress = λ f k. held f k t.owners }

pub All-map :
    (P Q : PeerRow → Type 0)
    → ((r : PeerRow) → P r → Q r)
    → (rs : List PeerRow) → All P rs
    → All Q rs
All-map P Q f [] h = tt
All-map P Q f (r ∷ rs) (p, h) = (f r p, All-map P Q f rs h)

row_of : String → ℤ → PeerRow
row_of c p = record { clientid = c; ip = "10.0.0.1"; message_port = pos 9025; percentage = p }

-- The row of a client, if it meets the conditions of the search.
unfoldable pub candidate :
    Directory → SearchType → String → ℤ → List String → String → Option PeerRow
unfolding row_of
candidate d t f q others c = elim (d.progress f c) [
  | none ↦ none
  | some p ↦
      if d.online c && (matches t q p && not (member c others)) then some (row_of c p) else none
]

unfoldable pub pick :
    Directory → SearchType → String → ℤ → List String → ℕ → List String → List PeerRow
unfolding candidate
pick d t f q others zero cs = []
pick d t f q others (suc n) [] = []
pick d t f q others (suc n) (c ∷ cs) = elim (candidate d t f q others c) [
  | none ↦ pick d t f q others (suc n) cs
  | some r ↦ r ∷ pick d t f q (c ∷ others) n cs
]

if_some : (b : Bool) (a r : PeerRow) → (if b then some a else none) ≡ some r → (b ≡ true) × (a ≡ r)
if_some true a r e = (refl, some-injective e)
if_some false a r e = cc

and_true : (a b c : Bool) → (a && (b && not c)) ≡ true → (a ≡ true) × (b ≡ true) × (c ≡ false)
and_true true true false e = (refl, refl, refl)
and_true true true true e = cc
and_true true false c e = cc
and_true false b c e = cc

candidate-IsMatch :
    (d : Directory) (t : SearchType) (f : String) (q : ℤ) (others : List String) (c : String)
    (r : PeerRow)
    → candidate d t f q others c ≡ some r
    → (r.clientid ≡ c) × IsMatch d t f q others c r.percentage
unfolding candidate row_of
candidate-IsMatch d t f q others c r e = elim (Option-cases (d.progress f c)) [
  | inl n ↦ let wrong : none ≡ some r = rw (candidate, n) at e in cc
  | inr (p, n) ↦
      let (ok, same) =
        if_some (d.online c && (matches t q p && not (member c others))) (row_of c p) r
          (rw (candidate, n) at e) in
      let (on, fits, new) = and_true (d.online c) (matches t q p) (member c others) ok in
      let value : p ≡ r.percentage = ap (λ (r : PeerRow). r.percentage) same in
      (sym (ap (λ (r : PeerRow). r.clientid) same), (on, n ∙ ap some value, rw value at fits, new))
]

candidate_of_match :
    (d : Directory) (t : SearchType) (f : String) (q : ℤ) (others : List String) (c : String)
    (p : ℤ)
    → IsMatch d t f q others c p
    → candidate d t f q others c ≡ some (row_of c p)
unfolding candidate
candidate_of_match d t f q others c p (on, n, fits, new) = rw (candidate, n, on, fits, new) refl

-- With more clients to leave out there are fewer matches.
IsMatch-fewer :
    (d : Directory) (t : SearchType) (f : String) (q : ℤ) (others : List String) (c k : String)
    (p : ℤ)
    → IsMatch d t f q (c ∷ others) k p
    → IsMatch d t f q others k p × (k ≢ c)
unfolding member
IsMatch-fewer d t f q others c k p (on, n, fits, new) =
    let parts : ((k == c) ≡ false) × (member k others ≡ false) = ground arith in
    ((on, n, fits, parts.1), λ e. let yes_same = (string_key.beq_iff k c).1 e in cc)

pub pick-none :
    (d : Directory) (t : SearchType) (f : String) (q : ℤ) (others : List String) (n : ℕ)
    (c : String) (cs : List String)
    → candidate d t f q others c ≡ none
    → pick d t f q others (suc n) (c ∷ cs) ≡ pick d t f q others (suc n) cs
unfolding pick
pick-none d t f q others n c cs e = rw (pick, e) refl

pub pick-some :
    (d : Directory) (t : SearchType) (f : String) (q : ℤ) (others : List String) (n : ℕ)
    (c : String) (cs : List String) (r : PeerRow)
    → candidate d t f q others c ≡ some r
    → pick d t f q others (suc n) (c ∷ cs) ≡ r ∷ pick d t f q (c ∷ others) n cs
unfolding pick
pick-some d t f q others n c cs r e = rw (pick, e) refl

pub pick_matches :
    (d : Directory) (t : SearchType) (f : String) (q : ℤ) (others : List String) (n : ℕ)
    (cs : List String)
    → All
        (λ (r : PeerRow). IsMatch d t f q others r.clientid r.percentage)
        (pick d t f q others n cs)
unfolding pick
pick_matches d t f q others zero cs = tt
pick_matches d t f q others (suc n) [] = tt
pick_matches d t f q others (suc n) (c ∷ cs) = elim (Option-cases (candidate d t f q others c)) [
  | inl e ↦ rw (pick-none d t f q others n c cs e) (pick_matches d t f q others (suc n) cs)
  | inr (r, e) ↦
      let (own, m) = candidate-IsMatch d t f q others c r e in
      rw (pick, e)
        (
          rw (sym own) at m,
          All-map (λ (r : PeerRow). IsMatch d t f q (c ∷ others) r.clientid r.percentage)
              (λ (r : PeerRow). IsMatch d t f q others r.clientid r.percentage)
              (λ s h. (IsMatch-fewer d t f q others c s.clientid s.percentage h).0)
              (pick d t f q (c ∷ others) n cs) (pick_matches d t f q (c ∷ others) n cs),
        )
]

pub pick_distinct :
    (d : Directory) (t : SearchType) (f : String) (q : ℤ) (others : List String) (n : ℕ)
    (cs : List String)
    → AreDistinct (pick d t f q others n cs)
unfolding pick
pick_distinct d t f q others zero cs = tt
pick_distinct d t f q others (suc n) [] = tt
pick_distinct d t f q others (suc n) (c ∷ cs) = elim (Option-cases (candidate d t f q others c)) [
  | inl e ↦ rw (pick-none d t f q others n c cs e) (pick_distinct d t f q others (suc n) cs)
  | inr (r, e) ↦
      let (own, m) = candidate-IsMatch d t f q others c r e in
      rw (pick, e)
        (
          All-map (λ (r : PeerRow). IsMatch d t f q (c ∷ others) r.clientid r.percentage)
              (λ (s : PeerRow). s.clientid ≢ r.clientid)
              (λ s h same.
                (IsMatch-fewer d t f q others c s.clientid s.percentage h).1 (same ∙ own))
              (pick d t f q (c ∷ others) n cs) (pick_matches d t f q (c ∷ others) n cs),
          pick_distinct d t f q (c ∷ others) n cs,
        )
]

-- The number of rows is at the limit, or the row of every match is among them.
pub pick_complete :
    (d : Directory) (t : SearchType) (f : String) (q : ℤ) (others : List String) (n : ℕ)
    (cs : List String) (k : String) (p : ℤ)
    → member k cs ≡ true
    → IsMatch d t f q others k p
    → length (pick d t f q others n cs) < n
    → HasRow k (pick d t f q others n cs)
unfolding pick member
pick_complete d t f q others zero cs k p i m l = absurd (omega arith)
pick_complete d t f q others (suc n) [] k p i m l = cc
pick_complete d t f q others (suc n) (c ∷ cs) k p i m l =
    elim (Option-cases (candidate d t f q others c)) [
      | inl e ↦
          let step = pick-none d t f q others n c cs e in
          rw step (pick_complete d t f q others (suc n) cs k p (later_on e) m (rw step at l))
      | inr (r, e) ↦
          let step = pick-some d t f q others n c cs r e in
          let (own, _) = candidate-IsMatch d t f q others c r e in
          let l' : suc (length (pick d t f q (c ∷ others) n cs)) < suc n = rw step at l in
          rw step (elim (Bool-cases (k == c)) [
            | inl same ↦ inl (own ∙ sym ((string_key.beq_iff k c).0 same))
            | inr other ↦ inr (
                pick_complete d t f q (c ∷ others) n cs k p (rw other at i)
                  (m.0, m.1, m.2, rw other m.3) (omega arith))
          ])
    ]
  where
    later_on : candidate d t f q others c ≡ none → member k cs ≡ true
    later_on e = elim (Bool-cases (k == c)) [
      | inl same ↦
          let here : candidate d t f q others k ≡ none = rw ((string_key.beq_iff k c).0 same) e in
          let there = candidate_of_match d t f q others k p m in cc
      | inr other ↦ rw other at i
    ]
