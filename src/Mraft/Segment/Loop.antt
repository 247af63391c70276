-- ===== src/Mraft/Segment/Loop.antt =====
-- The loop of Segment::Load (mraft/segment_log_storage.cpp): what it finds in a file, and that the
-- file's length bounds its rounds.
use myctk.Base.{
  ℕ, zero, suc, ◌+◌, ◌-◌, ◌^◌, ◌<◌, ◌≤◌, ◌≡◌, refl, ap, sym, ◌∙◌, Bool, true, false, List, [], ◌∷◌,
  ◌++◌, length, take, ltb, Bool-cases, inl, inr, ◌⊎◌, if◌then◌else◌, arith, length-append,
  append_assoc, length-take, take-beyond, append-nil,
}
use myctk.Mraft.Header.{EntryHeader, Skipped, header_length, encode_header, length-encode_header}
use myctk.Mraft.Segment.{
  LogEntry, Loaded, loaded, unfinished, corrupted, load_header, header_of, encode_entry, load_from,
}
use myctk.Mraft.Segment.Layout.{
  Stored, SizedEntry, encode_all, table, sealed, length-encode_entry, header_of-data_len,
  load_header-encode_header, load_header-short,
}
use myctk.Mraft.Segment.Kept.{Numbered}

-- the first bytes of an entry, and not all of them
abbrev pub torn : (List ℕ → ℕ) → ℕ → Stored → List ℕ
torn crc k (r, e) = take k (encode_entry crc r e)

-- what the loop found, with an entry before it
abbrev found_first : ℕ → ℕ → Bool × List (ℕ × ℕ) × ℕ → Bool × List (ℕ × ℕ) × ℕ
found_first offset term (ok, found, end) = (ok, (offset, term) ∷ found, end)

abbrev pub step_over : ℕ → EntryHeader → ℕ
step_over offset head = offset + (header_length + head.data_len)

module _ (crc : List ℕ → ℕ) where
  load_from-loaded :
      (fuel : ℕ) (file : List ℕ) (offset : ℕ) (head : EntryHeader)
      → load_header crc file offset ≡ loaded head
      → step_over offset head ≤ length file
      → load_from crc (suc fuel) file offset ≡ (
          let (ok, found, end) = load_from crc fuel file (step_over offset head) in
          (ok, (offset, head.term) ∷ found, end))
  unfolding load_from
  load_from-loaded fuel file offset head read h =
      let more : ltb offset (length file) ≡ true = ground arith in
      let fits : ltb (length file) (step_over offset head) ≡ false = ground arith in
      rw (more, read, fits)

  load_from-cut :
      (fuel : ℕ) (file : List ℕ) (offset : ℕ) (head : EntryHeader)
      → load_header crc file offset ≡ loaded head
      → length file < step_over offset head
      → load_from crc (suc fuel) file offset ≡ (true, [], offset)
  unfolding load_from
  load_from-cut fuel file offset head read h =
      let cut : ltb (length file) (step_over offset head) ≡ true = ground arith in
      elim (Bool-cases (ltb offset (length file))) [
        | inl more ↦ rw (more, read, cut)
        | inr no_more ↦ rw no_more
      ]

  load_from-unfinished :
      (fuel : ℕ) (file : List ℕ) (offset : ℕ)
      → load_header crc file offset ≡ unfinished
      → load_from crc (suc fuel) file offset ≡ (true, [], offset)
  unfolding load_from
  load_from-unfinished fuel file offset read = elim (Bool-cases (ltb offset (length file))) [
    | inl more ↦ rw (more, read)
    | inr no_more ↦ rw no_more
  ]

Loaded-cases :
    {A : Type 0} (l : Loaded A) → ((a : A) × (l ≡ loaded a)) ⊎ ((l ≡ unfinished) ⊎ (l ≡ corrupted))
Loaded-cases (loaded a) = inl (a, refl)
Loaded-cases unfinished = inr (inl refl)
Loaded-cases corrupted = inr (inr refl)

module _ (crc : List ℕ → ℕ) where
  load_from-at_end :
      (fuel : ℕ) (file : List ℕ) (offset : ℕ)
      → length file ≤ offset
      → load_from crc fuel file offset ≡ (true, [], offset)
  load_from-at_end zero file offset h = unfold load_from in refl
  load_from-at_end (suc fuel) file offset h =
      let no_more : ltb offset (length file) ≡ false = ground arith in
      unfold load_from in rw no_more

  load_from-corrupted :
      (fuel : ℕ) (file : List ℕ) (offset : ℕ)
      → load_header crc file offset ≡ corrupted
      → load_from crc (suc fuel) file offset
        ≡ (if ltb offset (length file) then (false, [], offset) else (true, [], offset))
  unfolding load_from
  load_from-corrupted fuel file offset read = rw read

  -- Whatever the file holds, the loop of Load ends within as many rounds as the file has bytes left:
  -- with any two bounds that large it finds the same.
  pub load_from-enough :
      (n m : ℕ) (file : List ℕ) (offset : ℕ)
      → length file ≤ offset + n
      → length file ≤ offset + m
      → load_from crc n file offset ≡ load_from crc m file offset
  load_from-enough zero m file offset h h' =
      load_from-at_end zero file offset (omega arith)
      ∙ sym (load_from-at_end m file offset (omega arith))
  load_from-enough (suc n) zero file offset h h' =
      load_from-at_end (suc n) file offset (omega arith)
      ∙ sym (load_from-at_end zero file offset (omega arith))
  load_from-enough (suc n) (suc m) file offset h h' =
      elim (Loaded-cases (load_header crc file offset)) [
        | inl (head, read) ↦ elim (Bool-cases (ltb (length file) (step_over offset head))) [
          | inl cut ↦
              load_from-cut crc n file offset head read (ground arith)
              ∙ sym (load_from-cut crc m file offset head read (ground arith))
          | inr fits ↦
              load_from-loaded crc n file offset head read (ground arith)
              ∙ ap (found_first offset head.term)
                  (load_from-enough n m file (step_over offset head) (omega arith) (omega arith))
              ∙ sym (load_from-loaded crc m file offset head read (ground arith))
        ]
        | inr (inl read) ↦
            load_from-unfinished crc n file offset read
            ∙ sym (load_from-unfinished crc m file offset read)
        | inr (inr read) ↦
            load_from-corrupted n file offset read ∙ sym (load_from-corrupted m file offset read)
      ]

module _ (crc : List ℕ → ℕ) (crc_small : (bs : List ℕ) → crc bs < 2 ^ 32) where
  load_header-encode_entry :
      (pre rest : List ℕ) (r : Skipped) (e : LogEntry)
      → SizedEntry e
      → load_header crc (pre ++ (encode_entry crc r e ++ rest)) (length pre)
        ≡ loaded (sealed crc r e)
  unfolding encode_entry
  load_header-encode_entry pre rest r e z =
      ap (λ t. load_header crc (pre ++ t) (length pre))
        (append_assoc (encode_header crc r (header_of crc e)) e.payload rest)
      ∙ load_header-encode_header crc crc_small pre (e.payload ++ rest) r e z

  load_header-torn :
      (k : ℕ) (pre : List ℕ) (r : Skipped) (e : LogEntry)
      → SizedEntry e
      → header_length ≤ k
      → load_header crc (pre ++ torn crc k (r, e)) (length pre) ≡ loaded (sealed crc r e)
  unfolding encode_entry
  load_header-torn k pre r e z h =
      let head : List ℕ = encode_header crc r (header_of crc e) in
      ap (λ t. load_header crc (pre ++ t) (length pre))
        (take-beyond k head e.payload (omega (arith, length-encode_header crc r (header_of crc e))))
      ∙ load_header-encode_header crc crc_small pre (take (k - length head) e.payload) r e z

  -- the loop stops at what was not written whole
  load_from-torn :
      (fuel k : ℕ) (pre : List ℕ) (r : Skipped) (e : LogEntry)
      → SizedEntry e
      → k < header_length + length e.payload
      → load_from crc fuel (pre ++ torn crc k (r, e)) (length pre) ≡ (true, [], length pre)
  load_from-torn zero k pre r e z h = unfold load_from in refl
  load_from-torn (suc fuel) k pre r e z h =
      let tail : List ℕ = torn crc k (r, e) in
      let part : length tail ≡ k =
        ground (arith, length-take k (encode_entry crc r e), length-encode_entry crc r e) in
      elim (Bool-cases (ltb k header_length)) [
        | inl short ↦
            load_from-unfinished crc fuel (pre ++ tail) (length pre)
              (load_header-short crc pre tail (ground arith))
        | inr long ↦
            load_from-cut crc fuel (pre ++ tail) (length pre) (sealed crc r e)
              (load_header-torn k pre r e z (ground arith))
              (omega (arith, length-append pre tail, header_of-data_len crc e z.2))
      ]

  pub load_from-table :
      (es : List Stored) (fuel k : ℕ) (pre : List ℕ) (r : Skipped) (e : LogEntry) (first : ℕ)
      → Numbered first es
      → SizedEntry e
      → k < header_length + length e.payload
      → length es ≤ fuel
      → load_from crc fuel (pre ++ (encode_all crc es ++ torn crc k (r, e))) (length pre)
        ≡ (true, table (length pre) es, length (pre ++ encode_all crc es))
  unfolding Numbered header_of
  load_from-table [] fuel k pre r e first n z h enough =
      load_from-torn fuel k pre r e z h ∙ ap (λ t. (true, [], length t)) (sym (append-nil pre))
  load_from-table ((q, x) ∷ es) zero k pre r e first n z h enough = absurd (omega arith)
  load_from-table ((q, x) ∷ es) (suc fuel) k pre r e first (i, y, n) z h enough =
      let all : List ℕ = encode_all crc es in
      let rest : List ℕ = all ++ torn crc k (r, e) in
      let entry : List ℕ = encode_entry crc q x in
      let next : ℕ = length pre + (header_length + length x.payload) in
      let at : next ≡ length (pre ++ entry) =
        omega (arith, length-append pre entry, length-encode_entry crc q x) in
      let over : step_over (length pre) (sealed crc q x) ≡ next =
        ap (λ n. length pre + (header_length + n)) (header_of-data_len crc x y.2) in
      let fits : step_over (length pre) (sealed crc q x) ≤ length (pre ++ (entry ++ rest)) = omega (
        arith,
        length-append pre (entry ++ rest),
        length-append entry rest,
        length-encode_entry crc q x,
      ) in
      let later = load_from-table es fuel k (pre ++ entry) r e (suc first) n z h (omega arith) in
      ap (λ t. load_from crc (suc fuel) (pre ++ t) (length pre))
        (append_assoc entry all (torn crc k (r, e)))
      ∙ load_from-loaded crc fuel (pre ++ (entry ++ rest)) (length pre) (sealed crc q x)
          (load_header-encode_entry pre rest q x y) fits
      ∙ ap (found_first (length pre) x.term) (
          ap (load_from crc fuel (pre ++ (entry ++ rest))) (over ∙ at)
          ∙ ap (λ f. load_from crc fuel f (length (pre ++ entry)))
              (sym (append_assoc pre entry rest))
          ∙ later
          ∙ ap (λ n. (true, table n es, length ((pre ++ entry) ++ all))) (sym at)
          ∙ ap (λ t. (true, table next es, length t)) (append_assoc pre entry all))
