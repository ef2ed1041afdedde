-- ===== src/Client/Transfer/Ranges.antt =====
-- What writing a range of a file leaves in that range and in the others.
use cool_down.Prelude.{
  ℕ, ◌+◌, ◌-◌, ◌≤◌, ◌<◌, min, ◌≡◌, refl, ap, ◌∙◌, ◌⊎◌, inl, inr, List, ◌++◌, none, true, false,
  length, take, drop, get_elem?, ltb, leb, arith, Bool-cases, if◌then◌else◌, length-append,
  length-take, length-drop, get_elem?-append, get_elem?-take, get_elem?-drop, get_elem?-none,
  elements_ext,
}
use cool_down.Outcome.{done, throw, undefined, done-injective}
use cool_down.Client.Transfer.{write_file}

-- The bytes of a file from an offset on.
abbrev pub range_of : ℕ → ℕ → List ℕ → List ℕ
range_of offset size file = take size (drop offset file)

abbrev overwritten : List ℕ → ℕ → List ℕ → List ℕ
overwritten file offset content = take offset file ++ content ++ drop (offset + length content) file

write_file-inv :
    (file : List ℕ) (offset : ℕ) (content file' : List ℕ)
    → write_file file offset content ≡ done file'
    → (offset + length content ≤ length file) × (overwritten file offset content ≡ file')
write_file-inv file offset content file' h =
    elim (Bool-cases (leb (offset + length content) (length file))) [
      | inl e ↦
          let same : done (overwritten file offset content) ≡ done file' = rw e at h in
          (ground arith, done-injective same)
      | inr e ↦ let wrong : throw undefined ≡ done file' = rw e at h in cc
    ]

-- What stands at each place of a file after a write.
get_elem?-overwritten :
    (file : List ℕ) (offset : ℕ) (content : List ℕ) (i : ℕ)
    → offset + length content ≤ length file
    → get_elem? (overwritten file offset content) i ≡ (
        if ltb i offset
        then get_elem? file i
        else if ltb i (offset + length content)
        then get_elem? content (i - offset)
        else get_elem? file i)
get_elem?-overwritten file offset content i h =
    let front : length (take offset file) ≡ offset = ground (arith, length-take {0} offset file) in
    let both : length (take offset file ++ content) ≡ offset + length content =
      length-append (take offset file) content ∙ ap (◌+◌ _) refl ∙ rw front refl in
    elim (Bool-cases (ltb i (offset + length content))) [
      | inl e ↦ elim (Bool-cases (ltb i offset)) [
        | inl f ↦ rw (get_elem?-append, both, e, get_elem?-append, front, f, get_elem?-take, f) refl
        | inr f ↦ rw (get_elem?-append, both, e, get_elem?-append, front, f) refl
      ]
      | inr e ↦
          let f : ltb i offset ≡ false = ground arith in
          let place : offset + length content + (i - (offset + length content)) ≡ i =
            ground arith in
          rw (get_elem?-append, both, e, f, get_elem?-drop, place) refl
    ]

get_elem?-range_of :
    (offset size : ℕ) (file : List ℕ) (i : ℕ)
    → get_elem? (range_of offset size file) i
      ≡ (if ltb i size then get_elem? file (offset + i) else none)
get_elem?-range_of offset size file i = rw (get_elem?-take, get_elem?-drop) refl

module _ (file : List ℕ) (offset : ℕ) (content file' : List ℕ)
    (written : write_file file offset content ≡ done file') where
  pub length-written : length file' ≡ length file
  length-written =
      let (inside, made) = write_file-inv file offset content file' written in
      let front : length (take offset file) ≡ min offset (length file) = length-take offset file in
      let back : length (drop (offset + length content) file)
          ≡ length file - (offset + length content) =
        length-drop (offset + length content) file in
      let all = length-append (take offset file ++ content) (drop (offset + length content) file) in
      let both = length-append (take offset file) content in rw (← made) (omega arith)

  pub inside-written : offset + length content ≤ length file
  inside-written = (write_file-inv file offset content file' written).0

  -- The range that was written has the content.
  pub range_of-written : range_of offset (length content) file' ≡ content
  range_of-written =
      let (inside, made) = write_file-inv file offset content file' written in
      rw (← made) (
        elements_ext _ _ λ i. elim (Bool-cases (ltb i (length content))) [
          | inl e ↦
              let f : ltb (offset + i) offset ≡ false = ground arith in
              let g : ltb (offset + i) (offset + length content) ≡ true = ground arith in
              let place : offset + i - offset ≡ i = omega arith in
              rw
                (
                  get_elem?-range_of,
                  e,
                  get_elem?-overwritten file offset content (offset + i) inside,
                  f,
                  g,
                  place,
                )
                refl
          | inr e ↦
              let out : get_elem? content i ≡ none = get_elem?-none content i (ground arith) in
              rw (get_elem?-range_of, e, out) refl
        ])

  -- A range before it or after it is as it was.
  pub range_of-kept :
      (start size : ℕ)
      → (start + size ≤ offset) ⊎ (offset + length content ≤ start)
      → range_of start size file' ≡ range_of start size file
  range_of-kept start size apart =
      let (inside, made) = write_file-inv file offset content file' written in
      rw (← made) (
        elements_ext _ _ λ i. elim (Bool-cases (ltb i size)) [
          | inl e ↦
              let kept : get_elem? (overwritten file offset content) (start + i)
                  ≡ get_elem? file (start + i) =
                get_elem?-overwritten file offset content (start + i) inside
                ∙ beside i apart (ground arith) in
              rw
                (
                  get_elem?-range_of start size (overwritten file offset content) i,
                  get_elem?-range_of start size file i,
                  e,
                  kept,
                )
                refl
          | inr e ↦
              rw
                (
                  get_elem?-range_of start size (overwritten file offset content) i,
                  get_elem?-range_of start size file i,
                  e,
                )
                refl
        ])
    where
      beside :
          (i : ℕ)
          → (start + size ≤ offset) ⊎ (offset + length content ≤ start)
          → i < size
          → (if ltb (start + i) offset
              then get_elem? file (start + i)
              else if ltb (start + i) (offset + length content)
              then get_elem? content (start + i - offset)
              else get_elem? file (start + i))
            ≡ get_elem? file (start + i)
      beside i (inl before) l = let f : ltb (start + i) offset ≡ true = ground arith in rw f refl
      beside i (inr after) l =
          let f : ltb (start + i) offset ≡ false = ground arith in
          let g : ltb (start + i) (offset + length content) ≡ false = ground arith in rw (f, g) refl
