-- ===== src/Mraft/Segment/Read.antt =====
-- Segment::Get against the entries that the segment holds (mraft/segment_log_storage.cpp).
use myctk.Base.{
  ◌||◌, ℕ, zero, suc, ◌+◌, ◌-◌, ◌^◌, ◌<◌, ◌≤◌, ◌≡◌, refl, ap, sym, subst, ◌∙◌, true, false, List,
  [], ◌∷◌, ◌++◌, length, ltb, ◌==◌, ==_iff, Bool-cases, inl, inr, Option, none, some, if◌then◌else◌,
  arith, length-append, get_or, get_elem?,
}
use myctk.Mraft.Header.{Skipped}
use myctk.Mraft.Segment.{
  LogEntry, Segment, LogMeta, loaded, load_entry, encode_entry, get_meta, get, get_term,
}
use myctk.Mraft.Segment.Layout.{Stored, encode_all, table, load_entry-encode_entry, get_or-table}
use myctk.Mraft.Segment.Kept.{Holds, Numbered, Numbered-at, encode_all-around, split_at}

-- the entry of an index
unfoldable pub entry_at : List Stored → ℕ → Option LogEntry
entry_at es i = elim (get_elem? es i) [ none ↦ none | some (_, e) ↦ some e ]

pub entry_at-append :
    (xs ys : List Stored) (r : Skipped) (e : LogEntry)
    → entry_at (xs ++ (r, e) ∷ ys) (length xs) ≡ some e
unfolding entry_at
entry_at-append [] ys r e = refl
entry_at-append (x ∷ xs) ys r e = entry_at-append xs ys r e

pub entry_at-beyond : (es : List Stored) (i : ℕ) → length es ≤ i → entry_at es i ≡ none
unfolding entry_at
entry_at-beyond [] i h = refl
entry_at-beyond (x ∷ es) zero h = absurd (omega arith)
entry_at-beyond (x ∷ es) (suc i) h = entry_at-beyond es i (omega arith)

module _ (crc : List ℕ → ℕ) (crc_small : (bs : List ℕ) → crc bs < 2 ^ 32) where
  -- GetMeta inside the segment
  get_meta-Holds :
      (s : Segment) (es xs ys : List Stored) (tail : List ℕ) (r : Skipped) (e : LogEntry)
      → Holds crc s es tail
      → es ≡ xs ++ (r, e) ∷ ys
      → (m : LogMeta) × (get_meta s (s.first_index + length xs) ≡ some m)
        × (m.offset ≡ length (encode_all crc xs))
        × (m.term ≡ e.term)
  unfolding get_meta
  get_meta-Holds s es xs ys tail r e (f, t, b, l, one, n) split =
      let at : s.first_index + length xs - s.first_index ≡ length xs = omega arith in
      let long : length es ≡ length xs + suc (length ys) =
        ap length split ∙ length-append xs ((r, e) ∷ ys) in
      let place : get_or s.offset_and_term (s.first_index + length xs - s.first_index) (0, 0)
          ≡ (length (encode_all crc xs), e.term) =
        ap (λ k. get_or s.offset_and_term k (0, 0)) at
        ∙ ap (λ o. get_or o (length xs) (0, 0)) (t ∙ ap (table 0) split)
        ∙ get_or-table crc xs ys 0 r e
        ∙ ap (λ k. (k, e.term)) (omega arith) in
      let above : ltb s.last_index (s.first_index + length xs) ≡ false = ground arith in
      let below : ltb (s.first_index + length xs) s.first_index ≡ false = ground arith in
      let full : (s.last_index + 1 == s.first_index) ≡ false =
        ground (arith, ==_iff (s.last_index + 1) s.first_index) in
      rw (above, below, full) (_, refl, ap (λ p. p.0) place, ap (λ p. p.1) place)

  get-Holds :
      (s : Segment) (es xs ys : List Stored) (tail : List ℕ) (r : Skipped) (e : LogEntry)
      → Holds crc s es tail
      → es ≡ xs ++ (r, e) ∷ ys
      → get crc s (s.first_index + length xs) ≡ some e
  unfolding get
  get-Holds s es xs ys tail r e h split =
      let (m, found, o, _) = get_meta-Holds s es xs ys tail r e h split in
      let (i, z) =
        Numbered-at xs ys s.first_index r e (subst (λ t. Numbered s.first_index t) split h.5) in
      let behind : List ℕ = encode_all crc ys ++ tail in
      let file : s.file ≡ encode_all crc xs ++ (encode_entry crc r e ++ behind) =
        h.0 ∙ ap (λ t. encode_all crc t ++ tail) split ∙ encode_all-around crc xs ys tail r e in
      let read : load_entry crc s.file (s.first_index + length xs) m.offset ≡ loaded e =
        rw (o, file, sym i)
          (load_entry-encode_entry crc crc_small (encode_all crc xs) behind r e z) in
      rw (found, get, read)

module _ (crc : List ℕ → ℕ) where
  get-outside :
      (s : Segment) (index : ℕ)
      → (ltb s.last_index index || ltb index s.first_index) ≡ true
      → get crc s index ≡ none
  unfolding get get_meta
  get-outside s index h = rw (h, get_meta, get)

module _ (crc : List ℕ → ℕ) (crc_small : (bs : List ℕ) → crc bs < 2 ^ 32) where
  -- Get at any index returns the entry of that index if the segment holds it, and nothing otherwise.
  pub get-entry_at :
      (s : Segment) (es : List Stored) (tail : List ℕ) (index : ℕ)
      → Holds crc s es tail
      → get crc s index
        ≡ (if ltb index s.first_index then none else entry_at es (index - s.first_index))
  get-entry_at s es tail index h = elim (Bool-cases (ltb index s.first_index)) [
    | inl low ↦ rw low (get-outside crc s index (ground arith))
    | inr high ↦ elim (Bool-cases (ltb (index - s.first_index) (length es))) [
      | inl inside ↦
          let (xs, r, e, ys, split, len) = split_at es (index - s.first_index) (ground arith) in
          let at : s.first_index + length xs ≡ index = ground arith in
          rw high (
            ap (get crc s) (sym at)
            ∙ get-Holds crc crc_small s es xs ys tail r e h split
            ∙ sym (entry_at-append xs ys r e)
            ∙ ap (λ t. entry_at t (length xs)) (sym split)
            ∙ ap (entry_at es) len)
      | inr beyond ↦
          rw (high, entry_at-beyond es (index - s.first_index) (ground arith))
            (get-outside crc s index (ground (arith, h.3)))
    ]
  ]

  -- GetTerm of an index that the segment holds
  pub get_term-entry_at :
      (s : Segment) (es : List Stored) (tail : List ℕ) (index : ℕ) (e : LogEntry)
      → Holds crc s es tail
      → s.first_index ≤ index
      → index - s.first_index < length es
      → entry_at es (index - s.first_index) ≡ some e
      → get_term s index ≡ e.term
  unfolding get_term
  get_term-entry_at s es tail index e h from inside here =
      let (xs, r, x, ys, split, len) = split_at es (index - s.first_index) inside in
      let at : s.first_index + length xs ≡ index = omega arith in
      let (m, found, _, term) = get_meta-Holds crc crc_small s es xs ys tail r x h split in
      let same : some x ≡ some e =
        sym (entry_at-append xs ys r x)
        ∙ ap (λ t. entry_at t (length xs)) (sym split)
        ∙ ap (entry_at es) len
        ∙ here in
      let found1 : get_meta s index ≡ some m = ap (get_meta s) (sym at) ∙ found in
      rw (found1, get_term) (term ∙ cc same)
