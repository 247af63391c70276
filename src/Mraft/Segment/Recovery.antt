-- ===== src/Mraft/Segment/Recovery.antt =====
-- Segment::Load (mraft/segment_log_storage.cpp) on a file whose last write was cut short.
use myctk.Base.{
  ℕ, ◌+◌, ◌-◌, ◌^◌, ◌<◌, ◌≤◌, ◌≡◌, refl, ap, sym, ◌∙◌, true, false, List, [], ◌∷◌, ◌++◌, length,
  take, ◌==◌, ==_iff, Bool-cases, inl, inr, if◌then◌else◌, arith, length-append, take-append,
  append-nil,
}
use myctk.Base.Int.{pos}
use myctk.Mraft.Header.{Skipped, header_length}
use myctk.Mraft.Segment.{LogEntry, Segment, encode_entry, load_from, load}
use myctk.Mraft.Segment.Layout.{
  Stored, SizedEntry, encode_all, table, length-encode_entry, length-table,
}
use myctk.Mraft.Segment.Kept.{Holds, Numbered}
use myctk.Mraft.Segment.Loop.{torn, load_from-table}

length-encode_all : (crc : List ℕ → ℕ) (es : List Stored) → length es ≤ length (encode_all crc es)
length-encode_all crc [] = omega arith
length-encode_all crc ((r, e) ∷ es) = omega (
  arith,
  length-append (encode_entry crc r e) (encode_all crc es),
  length-encode_entry crc r e,
  length-encode_all crc es,
)

nil-of_length : (xs : List ℕ) → length xs ≡ 0 → xs ≡ []
nil-of_length [] h = refl
nil-of_length (x ∷ xs) h = absurd (omega arith)

-- the segment before Load: its file has the entries and what was written of one more, and the name
-- of a closed file gives the last entry
abbrev pub Crashed : (List ℕ → ℕ) → Segment → List Stored → ℕ → Stored → Type 0
Crashed crc s es k (r, e) =
    (s.file ≡ encode_all crc es ++ torn crc k (r, e))
    × (s.offset_and_term ≡ [])
    × (1 ≤ s.first_index)
    × (s.is_open ≡ false → s.last_index + 1 ≡ s.first_index + length es)
    × Numbered s.first_index es
    × SizedEntry e
    × (k < header_length + length e.payload)

module _ (crc : List ℕ → ℕ) (crc_small : (bs : List ℕ) → crc bs < 2 ^ 32) where
  load_from-Crashed :
      (s : Segment) (es : List Stored) (k : ℕ) (r : Skipped) (e : LogEntry)
      → Crashed crc s es k (r, e)
      → load_from crc (length s.file) s.file 0 ≡ (true, table 0 es, length (encode_all crc es))
  load_from-Crashed s es k r e (f, t, one, closed, n, z, short) =
      let enough : length es ≤ length s.file = omega (
        arith,
        ap length f,
        length-append (encode_all crc es) (torn crc k (r, e)),
        length-encode_all crc es,
      ) in
      ap (λ t. load_from crc (length s.file) t 0) f
      ∙ load_from-table crc crc_small es (length s.file) k [] r e s.first_index n z short enough

  last_index-loaded :
      (s : Segment) (es : List Stored)
      → 1 ≤ s.first_index
      → (s.is_open ≡ false → s.last_index + 1 ≡ s.first_index + length es)
      → (if s.is_open then s.first_index + length (table 0 es) - 1 else s.last_index) + 1
        ≡ s.first_index + length es
  last_index-loaded s es one closed = elim (Bool-cases s.is_open) [
    | inl o ↦ rw o (omega (arith, length-table es 0))
    | inr c ↦ rw c (closed c)
  ]

  -- Load finds every entry that was written whole, drops the bytes of the one that was not, and
  -- returns 0.
  pub load-Holds :
      (s : Segment) (es : List Stored) (k : ℕ) (r : Skipped) (e : LogEntry)
      → Crashed crc s es k (r, e)
      → ((load crc true s).0 ≡ pos 0)
        × Holds crc ((load crc true s).1) es []
        × ((load crc true s).1.is_open ≡ s.is_open)
        × ((load crc true s).1.first_index ≡ s.first_index)
  unfolding load
  load-Holds s es k r e c =
      let (f, t, one, closed, n, z, short) = c in
      let end : ℕ = length (encode_all crc es) in
      elim (Bool-cases (end == length s.file)) [
        | inl whole ↦
            rw (load_from-Crashed s es k r e c, whole, t)
              (
                refl,
                (
                  f
                      ∙ ap (λ t. encode_all crc es ++ t)
                          (nil-of_length (torn crc k (r, e)) (
                            ground (
                              arith,
                              ==_iff end (length s.file),
                              ap length f,
                              length-append (encode_all crc es) (torn crc k (r, e)),
                            ))),
                  refl,
                  refl,
                  last_index-loaded s es one closed,
                  one,
                  n,
                ),
                refl,
                refl,
              )
        | inr cut ↦
            rw (load_from-Crashed s es k r e c, cut, t)
              (
                refl,
                (
                  ap (take end) f
                      ∙ take-append (encode_all crc es) (torn crc k (r, e))
                      ∙ sym (append-nil (encode_all crc es)),
                  refl,
                  refl,
                  last_index-loaded s es one closed,
                  one,
                  n,
                ),
                refl,
                refl,
              )
      ]
