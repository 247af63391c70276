-- ===== src/Mraft/Segment/Layout.antt =====
-- The bytes of entries one after the other, and LoadEntry at the start of one of them
-- (mraft/segment_log_storage.cpp).
use myctk.Base.{
  ℕ, suc, ◌+◌, ◌^◌, ◌<◌, ◌≡◌, refl, ap, sym, ◌∙◌, false, List, [], ◌∷◌, ◌++◌, length, take, drop,
  ltb, ==_refl, ==_iff, Bool-cases, inl, inr, take-append, arith, length-append, append_assoc,
  take-all, drop-append, get_or,
}
use native.Mathlib.Nat.{mod-eq_of_lt}
use myctk.Mraft.Header.{
  EntryHeader, Skipped, Fits, header_length, encode_header, checked_part, verify_checksum,
  length-encode_header, take-append_of, drop-append_of, decode_header-encode_header,
  verify_checksum-encode_header,
}
use myctk.Mraft.Segment.{
  LogEntry, loaded, unfinished, load_header, load_data, load_entry, header_of, encode_entry,
}

-- an entry as it lies on disk, with the bytes that its header skips
abbrev pub Stored : Type 0
Stored = Skipped × LogEntry

abbrev pub SizedEntry : LogEntry → Type 0
SizedEntry e = (e.term < 2 ^ 64) × (e.type < 2 ^ 8) × (length e.payload < 2 ^ 32)

module _ (crc : List ℕ → ℕ) where
  abbrev pub encode_all : List Stored → List ℕ
  encode_all [] = []
  encode_all ((r, e) ∷ es) = encode_entry crc r e ++ encode_all es

  -- the header as it is read back
  abbrev pub sealed : Skipped → LogEntry → EntryHeader
  sealed r e = record (header_of crc e) { header_checksum = crc (checked_part r (header_of crc e)) }

-- the offsets and terms of entries of which the first lies at an offset
abbrev pub table : ℕ → List Stored → List (ℕ × ℕ)
table offset [] = []
table offset ((r, e) ∷ es) =
    (offset, e.term) ∷ table (offset + (header_length + length e.payload)) es

module _ (crc : List ℕ → ℕ) where
  pub length-encode_entry :
      (r : Skipped) (e : LogEntry)
      → length (encode_entry crc r e) ≡ header_length + length e.payload
  unfolding encode_entry
  length-encode_entry r e =
      length-append (encode_header crc r (header_of crc e)) e.payload
      ∙ ap (λ n. n + length e.payload) (length-encode_header crc r (header_of crc e))

  pub header_of-data_len :
      (e : LogEntry) → length e.payload < 2 ^ 32 → (header_of crc e).data_len ≡ length e.payload
  unfolding header_of
  header_of-data_len e h = mod-eq_of_lt h

nil-of_empty : (xs : List ℕ) → ltb 0 (length xs) ≡ false → [] ≡ xs
nil-of_empty [] h = refl
nil-of_empty (x ∷ xs) h = absurd (ground arith)

module _ (crc : List ℕ → ℕ) (crc_small : (bs : List ℕ) → crc bs < 2 ^ 32) where
  header_of-Fits : (e : LogEntry) → SizedEntry e → Fits (header_of crc e)
  unfolding header_of
  header_of-Fits e (t, y, l) = (t, y, omega arith, ground (arith, crc_small e.payload))

  -- a header alone is read back, whatever follows it
  pub load_header-encode_header :
      (pre rest : List ℕ) (r : Skipped) (e : LogEntry)
      → SizedEntry e
      → load_header crc (pre ++ (encode_header crc r (header_of crc e) ++ rest)) (length pre)
        ≡ loaded (sealed crc r e)
  unfolding load_header
  load_header-encode_header pre rest r e h =
      let head : List ℕ = encode_header crc r (header_of crc e) in
      rw (
        drop-append pre (head ++ rest),
        take-append_of header_length head rest (length-encode_header crc r (header_of crc e)),
        length-encode_header crc r (header_of crc e),
        decode_header-encode_header crc r (header_of crc e) (header_of-Fits e h)
            (crc_small (checked_part r (header_of crc e))),
        verify_checksum-encode_header crc r (header_of crc e),
      )

  load_data-payload :
      (file : List ℕ) (offset : ℕ) (r : Skipped) (e : LogEntry)
      → SizedEntry e
      → take (length e.payload) (drop (offset + header_length) file) ≡ e.payload
      → load_data crc file e.index offset (sealed crc r e) ≡ loaded e
  unfolding load_data header_of verify_checksum
  load_data-payload file offset r e h found = elim (Bool-cases (ltb 0 (length e.payload))) [
    | inl some_data ↦
        rw (mod-eq_of_lt h.2, found, some_data, ==_refl (length e.payload), ==_refl (crc e.payload))
    | inr no_data ↦
        rw (mod-eq_of_lt h.2, no_data)
          (ap (λ p. loaded (record e { payload = p })) (nil-of_empty e.payload no_data))
  ]

  -- with the payload whole, the entry is read back
  pub load_entry-encode_entry :
      (pre rest : List ℕ) (r : Skipped) (e : LogEntry)
      → SizedEntry e
      → load_entry crc (pre ++ (encode_entry crc r e ++ rest)) e.index (length pre) ≡ loaded e
  unfolding encode_entry load_entry
  load_entry-encode_entry pre rest r e h =
      let head : List ℕ = encode_header crc r (header_of crc e) in
      let file : List ℕ = pre ++ (head ++ (e.payload ++ rest)) in
      let at : length (pre ++ head) ≡ length pre + header_length =
        length-append pre head
        ∙ ap (λ n. length pre + n) (length-encode_header crc r (header_of crc e)) in
      let tail : drop (length pre + header_length) file ≡ e.payload ++ rest =
        ap (drop (length pre + header_length)) (sym (append_assoc pre head (e.payload ++ rest)))
        ∙ drop-append_of (length pre + header_length) (pre ++ head) (e.payload ++ rest) at in
      let found : take (length e.payload) (drop (length pre + header_length) file) ≡ e.payload =
        ap (take (length e.payload)) tail ∙ take-append e.payload rest in
      ap (λ t. load_entry crc (pre ++ t) e.index (length pre)) (append_assoc head e.payload rest)
      ∙ rw (load_header-encode_header pre (e.payload ++ rest) r e h, load_entry)
          (load_data-payload file (length pre) r e h found)

module _ (crc : List ℕ → ℕ) where
  -- fewer bytes than a header has are an entry that was not written whole
  pub load_header-short :
      (pre rest : List ℕ)
      → length rest < header_length
      → load_header crc (pre ++ rest) (length pre) ≡ unfinished
  unfolding load_header
  load_header-short pre rest h =
      rw (drop-append pre rest, take-all header_length rest (omega arith))
        (ground (arith, ==_iff (length rest) header_length))

pub length-table : (es : List Stored) (n : ℕ) → length (table n es) ≡ length es
length-table [] n = refl
length-table ((r, e) ∷ es) n = ap suc (length-table es (n + (header_length + length e.payload)))

-- the place of an entry in the table
pub get_or-table :
    (crc : List ℕ → ℕ) (pre post : List Stored) (n : ℕ) (r : Skipped) (e : LogEntry)
    → get_or (table n (pre ++ (r, e) ∷ post)) (length pre) (0, 0)
      ≡ (n + length (encode_all crc pre), e.term)
get_or-table crc [] post n r e = ap (λ k. (k, e.term)) (omega arith)
get_or-table crc ((q, x) ∷ pre) post n r e =
    get_or-table crc pre post (n + (header_length + length x.payload)) r e
    ∙ ap (λ k. (k, e.term))
        (omega (
          arith,
          length-append (encode_entry crc q x) (encode_all crc pre),
          length-encode_entry crc q x,
        ))
