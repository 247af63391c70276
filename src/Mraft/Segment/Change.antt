-- ===== src/Mraft/Segment/Change.antt =====
-- Segment::Append and Segment::Truncate against the entries that the segment holds
-- (mraft/segment_log_storage.cpp).
use myctk.Base.{
  ℕ, ◌+◌, ◌-◌, ◌<◌, ◌≤◌, ◌≡◌, refl, ap, sym, subst, ◌∙◌, Bool, true, false, not, ◌&&◌, List, [],
  ◌∷◌, ◌++◌, length, take, leb, ◌==◌, ==_iff, arith, length-append, append_assoc, take-append,
  take-all, append-nil, get_or,
}
use myctk.Base.Int.{pos}
use myctk.Mraft.Header.{Skipped, header_length}
use myctk.Mraft.Segment.{
  LogEntry, Segment, Written, TruncateCalls, in_progress, header_of, encode_entry, append, truncate,
}
use myctk.Mraft.Segment.Layout.{
  Stored, SizedEntry, encode_all, table, length-encode_entry, header_of-data_len, get_or-table,
}
use myctk.Mraft.Segment.Kept.{
  Holds, Numbered, encode_all-append, encode_all-around, table-snoc, Numbered-snoc, Numbered-front,
  split_at,
}

pub in_progress-Holds :
    (crc : List ℕ → ℕ) (first : ℕ) → 1 ≤ first → Holds crc (in_progress first) [] []
unfolding in_progress Numbered
in_progress-Holds crc first one = (refl, refl, refl, omega arith, one, tt)

length-encode_all-snoc :
    (crc : List ℕ → ℕ) (es : List Stored) (r : Skipped) (e : LogEntry)
    → length (encode_all crc (es ++ (r, e) ∷ []))
      ≡ length (encode_all crc es) + (header_length + length e.payload)
length-encode_all-snoc crc es r e =
    ap length (encode_all-append crc es ((r, e) ∷ []))
    ∙ length-append (encode_all crc es) (encode_entry crc r e ++ [])
    ∙ ap (λ t. length (encode_all crc es) + length t) (append-nil (encode_entry crc r e))
    ∙ ap (λ n. length (encode_all crc es) + n) (length-encode_entry crc r e)

and-false : (b : Bool) → (b && false) ≡ false
and-false true = refl
and-false false = refl

take-table : (xs ys : List Stored) (n : ℕ) → take (length xs) (table n (xs ++ ys)) ≡ table n xs
take-table [] ys n = refl
take-table ((q, x) ∷ xs) ys n =
    ap (λ t. (n, x.term) ∷ t) (take-table xs ys (n + (header_length + length x.payload)))

abbrev pub all_succeed : TruncateCalls
all_succeed = record { renames = true; truncates = true; seeks = true }

module _ (crc : List ℕ → ℕ) where
  -- Append of the next entry to an open segment with nothing behind its entries, when the write is
  -- whole, returns 0, and the segment holds the entry after the others.
  pub append-Holds :
      (s : Segment) (es : List Stored) (r : Skipped) (w : Written) (e : LogEntry)
      → Holds crc s es []
      → s.is_open ≡ true
      → e.index ≡ s.last_index + 1
      → SizedEntry e
      → w.count ≡ header_length + length e.payload
      → ((append crc r w s e).0 ≡ 0)
        × Holds crc ((append crc r w s e).1) (es ++ (r, e) ∷ []) []
        × ((append crc r w s e).1.is_open ≡ true)
        × ((append crc r w s e).1.first_index ≡ s.first_index)
  unfolding append
  append-Holds s es r w e (f, t, b, l, one, n) o i z c =
      let fits : (header_of crc e).data_len ≡ length e.payload = header_of-data_len crc e z.2 in
      let next : (e.index == s.last_index + 1) ≡ true = (==_iff e.index (s.last_index + 1)).1 i in
      let whole : (w.count == header_length + length e.payload) ≡ true =
        (==_iff w.count (header_length + length e.payload)).1 c in
      let all : take w.count (encode_entry crc r e) ≡ encode_entry crc r e =
        take-all w.count (encode_entry crc r e) (omega (arith, length-encode_entry crc r e)) in
      rw (o, next, fits, whole, all)
        (
          refl,
          (
            ap (λ t. t ++ encode_entry crc r e) (f ∙ append-nil (encode_all crc es))
                ∙ ap (λ t. encode_all crc es ++ t) (sym (append-nil (encode_entry crc r e)))
                ∙ sym (encode_all-around crc es [] [] r e),
            ap (λ t. t ++ (s.bytes, e.term) ∷ []) t
                ∙ ap (λ k. table 0 es ++ (k, e.term) ∷ []) (omega arith)
                ∙ sym (table-snoc crc es 0 r e),
            omega (arith, length-encode_all-snoc crc es r e),
            omega (arith, length-append es ((r, e) ∷ [])),
            one,
            Numbered-snoc es s.first_index r e n (omega arith) z,
          ),
          refl,
          refl,
        )

  -- When the write is not whole, Append returns errno, the entries are those from before, and
  -- behind them lie the bytes that were written.
  pub append-failed :
      (s : Segment) (es : List Stored) (tail : List ℕ) (r : Skipped) (w : Written) (e : LogEntry)
      → Holds crc s es tail
      → s.is_open ≡ true
      → e.index ≡ s.last_index + 1
      → SizedEntry e
      → w.count < header_length + length e.payload
      → ((append crc r w s e).0 ≡ w.errno)
        × Holds crc ((append crc r w s e).1) es (tail ++ take w.count (encode_entry crc r e))
  unfolding append
  append-failed s es tail r w e (f, t, b, l, one, n) o i z c =
      let fits : (header_of crc e).data_len ≡ length e.payload = header_of-data_len crc e z.2 in
      let next : (e.index == s.last_index + 1) ≡ true = (==_iff e.index (s.last_index + 1)).1 i in
      let part : (w.count == header_length + length e.payload) ≡ false =
        ground (arith, ==_iff w.count (header_length + length e.payload)) in
      rw (o, next, fits, part)
        (
          refl,
          (
            ap (λ t. t ++ take w.count (encode_entry crc r e)) f
                ∙ append_assoc (encode_all crc es) tail (take w.count (encode_entry crc r e)),
            t,
            b,
            l,
            one,
            n,
          ),
        )

  truncate-split :
      (s : Segment) (xs ys : List Stored) (r : Skipped) (e : LogEntry) (tail : List ℕ) (kept : ℕ)
      → Holds crc s (xs ++ (r, e) ∷ ys) tail
      → length xs ≡ kept + 1 - s.first_index
      → s.first_index ≤ kept + 1
      → kept < s.last_index
      → ((truncate all_succeed s kept).0 ≡ pos 0)
        × Holds crc ((truncate all_succeed s kept).1) xs []
        × ((truncate all_succeed s kept).1.is_open ≡ true)
        × ((truncate all_succeed s kept).1.first_index ≡ s.first_index)
  unfolding truncate
  truncate-split s xs ys r e tail kept (f, t, b, l, one, n) len low high =
      let inside : leb s.last_index kept ≡ false = ground arith in
      let size : ℕ = length (encode_all crc xs) in
      let place : get_or s.offset_and_term (kept + 1 - s.first_index) (0, 0) ≡ (size, e.term) =
        ap (λ k. get_or s.offset_and_term k (0, 0)) (sym len)
        ∙ ap (λ o. get_or o (length xs) (0, 0)) t
        ∙ get_or-table crc xs ys 0 r e
        ∙ ap (λ k. (k, e.term)) (omega arith) in
      let cut_table : take (kept + 1 - s.first_index) s.offset_and_term ≡ table 0 xs =
        ap (λ k. take k s.offset_and_term) (sym len)
        ∙ ap (take (length xs)) t
        ∙ take-table xs ((r, e) ∷ ys) 0 in
      let cut_file : take size s.file ≡ encode_all crc xs =
        ap (take size) (f ∙ encode_all-around crc xs ys tail r e)
        ∙ take-append (encode_all crc xs) (encode_entry crc r e ++ (encode_all crc ys ++ tail)) in
      rw (inside, place, cut_table, cut_file, and-false (not s.is_open))
        (
          refl,
          (
            sym (append-nil (encode_all crc xs)),
            refl,
            refl,
            omega arith,
            one,
            Numbered-front xs ((r, e) ∷ ys) s.first_index n,
          ),
          refl,
          refl,
        )

  -- Truncate to an index inside the segment, when its calls succeed, returns 0, and the segment is
  -- open, with the entries up to that index and nothing behind them.
  pub truncate-Holds :
      (s : Segment) (es : List Stored) (tail : List ℕ) (kept : ℕ)
      → Holds crc s es tail
      → s.first_index ≤ kept + 1
      → kept < s.last_index
      → ((truncate all_succeed s kept).0 ≡ pos 0)
        × Holds crc ((truncate all_succeed s kept).1) (take (kept + 1 - s.first_index) es) []
        × ((truncate all_succeed s kept).1.is_open ≡ true)
        × ((truncate all_succeed s kept).1.first_index ≡ s.first_index)
  truncate-Holds s es tail kept h low high =
      let (xs, r, e, ys, split, len) =
        split_at es (kept + 1 - s.first_index) (omega (arith, h.3)) in
      let (code, holds, o, first) =
        truncate-split s xs ys r e tail kept (subst (λ t. Holds crc s t tail) split h) len low
          high in
      let kept_entries : xs ≡ take (kept + 1 - s.first_index) es =
        sym (take-append xs ((r, e) ∷ ys))
        ∙ ap (λ k. take k (xs ++ (r, e) ∷ ys)) len
        ∙ ap (take (kept + 1 - s.first_index)) (sym split) in
      (
        code,
        subst (λ t. Holds crc ((truncate all_succeed s kept).1) t []) kept_entries holds,
        o,
        first,
      )
