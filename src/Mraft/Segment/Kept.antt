-- ===== src/Mraft/Segment/Kept.antt =====
-- The entries that a segment holds (mraft/segment_log_storage.cpp).
use myctk.Base.{
  ℕ, zero, suc, ◌+◌, ◌<◌, ◌≤◌, ◌≡◌, refl, ap, sym, ◌∙◌, List, [], ◌∷◌, ◌++◌, length, arith,
  length-append, append_assoc,
}
use myctk.Mraft.Header.{Skipped, header_length}
use myctk.Mraft.Segment.{LogEntry, Segment, encode_entry}
use myctk.Mraft.Segment.Layout.{Stored, SizedEntry, encode_all, table, length-encode_entry}

-- the entries have the indices from `first` on, and their fields fit
unfoldable pub Numbered : ℕ → List Stored → Type 0
Numbered first [] = Unit {0}
Numbered first ((r, e) ∷ es) = (e.index ≡ first) × SizedEntry e × Numbered (suc first) es

-- the segment's table is that of the entries, and its file begins with them; after them come the
-- bytes of `tail`
abbrev pub Holds : (List ℕ → ℕ) → Segment → List Stored → List ℕ → Type 0
Holds crc s es tail =
    (s.file ≡ encode_all crc es ++ tail)
    × (s.offset_and_term ≡ table 0 es)
    × (s.bytes ≡ length (encode_all crc es))
    × (s.last_index + 1 ≡ s.first_index + length es)
    × (1 ≤ s.first_index)
    × Numbered s.first_index es

-- Lists of entries.
pub encode_all-append :
    (crc : List ℕ → ℕ) (xs ys : List Stored)
    → encode_all crc (xs ++ ys) ≡ encode_all crc xs ++ encode_all crc ys
encode_all-append crc [] ys = refl
encode_all-append crc ((r, e) ∷ xs) ys =
    ap (λ t. encode_entry crc r e ++ t) (encode_all-append crc xs ys)
    ∙ sym (append_assoc (encode_entry crc r e) (encode_all crc xs) (encode_all crc ys))

pub encode_all-around :
    (crc : List ℕ → ℕ) (xs ys : List Stored) (tail : List ℕ) (r : Skipped) (e : LogEntry)
    → encode_all crc (xs ++ (r, e) ∷ ys) ++ tail
      ≡ encode_all crc xs ++ (encode_entry crc r e ++ (encode_all crc ys ++ tail))
encode_all-around crc xs ys tail r e =
    ap (λ t. t ++ tail) (encode_all-append crc xs ((r, e) ∷ ys))
    ∙ append_assoc (encode_all crc xs) (encode_entry crc r e ++ encode_all crc ys) tail
    ∙ ap (λ t. encode_all crc xs ++ t)
        (append_assoc (encode_entry crc r e) (encode_all crc ys) tail)

pub table-snoc :
    (crc : List ℕ → ℕ) (xs : List Stored) (n : ℕ) (r : Skipped) (e : LogEntry)
    → table n (xs ++ (r, e) ∷ []) ≡ table n xs ++ (n + length (encode_all crc xs), e.term) ∷ []
table-snoc crc [] n r e = ap (λ k. (k, e.term) ∷ []) (omega arith)
table-snoc crc ((q, x) ∷ xs) n r e =
    ap (λ t. (n, x.term) ∷ t)
      (table-snoc crc xs (n + (header_length + length x.payload)) r e
        ∙ ap (λ k. table (n + (header_length + length x.payload)) xs ++ (k, e.term) ∷ [])
            (omega (
              arith,
              length-append (encode_entry crc q x) (encode_all crc xs),
              length-encode_entry crc q x,
            )))

pub Numbered-snoc :
    (xs : List Stored) (first : ℕ) (r : Skipped) (e : LogEntry)
    → Numbered first xs
    → e.index ≡ first + length xs
    → SizedEntry e
    → Numbered first (xs ++ (r, e) ∷ [])
unfolding Numbered
Numbered-snoc [] first r e h i z = (omega arith, z, tt)
Numbered-snoc ((q, x) ∷ xs) first r e (i', z', h) i z =
    (i', z', Numbered-snoc xs (suc first) r e h (omega arith) z)

pub Numbered-front :
    (xs ys : List Stored) (first : ℕ) → Numbered first (xs ++ ys) → Numbered first xs
unfolding Numbered
Numbered-front [] ys first h = tt
Numbered-front ((q, x) ∷ xs) ys first (i, z, h) = (i, z, Numbered-front xs ys (suc first) h)

pub Numbered-at :
    (xs ys : List Stored) (first : ℕ) (r : Skipped) (e : LogEntry)
    → Numbered first (xs ++ (r, e) ∷ ys)
    → (e.index ≡ first + length xs) × SizedEntry e
unfolding Numbered
Numbered-at [] ys first r e (i, z, h) = (omega arith, z)
Numbered-at ((q, x) ∷ xs) ys first r e (i, z, h) =
    let (j, w) = Numbered-at xs ys (suc first) r e h in (omega arith, w)

pub split_at :
    (es : List Stored) (k : ℕ)
    → k < length es
    → (xs : List Stored) × (r : Skipped) × (e : LogEntry) × (ys : List Stored) × (es
        ≡ xs ++ (r, e) ∷ ys)
      × (length xs ≡ k)
split_at [] k h = absurd (omega arith)
split_at ((r, e) ∷ es) zero h = ([], r, e, es, refl, refl)
split_at ((q, x) ∷ es) (suc k) h =
    let (xs, r, e, ys, eq, len) = split_at es k (omega arith) in
    ((q, x) ∷ xs, r, e, ys, ap (λ t. (q, x) ∷ t) eq, ap suc len)
