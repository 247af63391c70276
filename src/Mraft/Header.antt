-- ===== src/Mraft/Header.antt =====
-- EntryHeader (mraft/segment_log_storage.h, mraft/segment_log_storage.cpp): the 24 bytes in front
-- of an entry's data. folly::crc32 is the parameter `crc`, and the three bytes that Encode skips,
-- which hold whatever the buffer held, are the parameter `skipped`.
use myctk.Base.{
  ℕ, ◌^◌, ◌<◌, ◌≡◌, refl, sym, ap, ◌∙◌, Bool, true, List, ◌∷◌, [], ◌++◌, length, take, drop, ◌==◌,
  ==_refl, length-append, take-append, drop-append, take-all, append_assoc, arith, subst,
}
use myctk.Mraft.LocalInt.{write_int, read_int, length-write_int, read_int-write_int}

pub record EntryHeader : Type 0 where
  pub term : ℕ
  pub type : ℕ
  pub data_len : ℕ
  pub data_checksum : ℕ
  pub header_checksum : ℕ

abbrev pub header_length : ℕ
header_length = 24

unfoldable pub decode_header : List ℕ → EntryHeader
decode_header bytes = record {
  term = read_int (take 8 bytes);
  type = read_int (take 1 (drop 8 bytes));
  data_len = read_int (take 4 (drop 4 (drop 8 bytes)));
  data_checksum = read_int (take 4 (drop 4 (drop 4 (drop 8 bytes))));
  header_checksum = read_int (take 4 (drop 4 (drop 4 (drop 4 (drop 8 bytes)))));
}

-- the three bytes that Encode leaves as they are
pub record Skipped : Type 0 where
  pub first : ℕ
  pub second : ℕ
  pub third : ℕ

abbrev pub skipped_bytes : Skipped → List ℕ
skipped_bytes r = r.first ∷ r.second ∷ r.third ∷ []

unfoldable pub checked_part : Skipped → EntryHeader → List ℕ
checked_part r h =
    write_int 8 h.term
    ++ (write_int 1 h.type
        ++ (skipped_bytes r ++ (write_int 4 h.data_len ++ write_int 4 h.data_checksum)))

unfoldable pub encode_header : (List ℕ → ℕ) → Skipped → EntryHeader → List ℕ
encode_header crc r h = let part = checked_part r h in part ++ write_int 4 (crc part)

unfoldable pub verify_checksum : (List ℕ → ℕ) → List ℕ → ℕ → Bool
verify_checksum crc bytes v = crc bytes == v

-- every field fits its width
abbrev pub Fits : EntryHeader → Type 0
Fits h = (h.term < 2 ^ 64) × (h.type < 2 ^ 8) × (h.data_len < 2 ^ 32) × (h.data_checksum < 2 ^ 32)

pub take-append_of : (n : ℕ) (xs ys : List ℕ) → length xs ≡ n → take n (xs ++ ys) ≡ xs
take-append_of n xs ys e = subst (λ k. take k (xs ++ ys) ≡ xs) e (take-append xs ys)

pub drop-append_of : (n : ℕ) (xs ys : List ℕ) → length xs ≡ n → drop n (xs ++ ys) ≡ ys
drop-append_of n xs ys e = subst (λ k. drop k (xs ++ ys) ≡ ys) e (drop-append xs ys)

pub length-checked_part : (r : Skipped) (h : EntryHeader) → length (checked_part r h) ≡ 20
unfolding checked_part
length-checked_part r h = omega (
  arith,
  length-append (write_int 8 h.term) (
      write_int 1 h.type
      ++ (skipped_bytes r ++ (write_int 4 h.data_len ++ write_int 4 h.data_checksum))),
  length-append (write_int 1 h.type)
      (skipped_bytes r ++ (write_int 4 h.data_len ++ write_int 4 h.data_checksum)),
  length-append (skipped_bytes r) (write_int 4 h.data_len ++ write_int 4 h.data_checksum),
  length-append (write_int 4 h.data_len) (write_int 4 h.data_checksum),
  length-write_int 8 h.term,
  length-write_int 1 h.type,
  length-write_int 4 h.data_len,
  length-write_int 4 h.data_checksum,
)

pub length-encode_header :
    (crc : List ℕ → ℕ) (r : Skipped) (h : EntryHeader)
    → length (encode_header crc r h) ≡ header_length
unfolding encode_header
length-encode_header crc r h = omega (
  arith,
  length-append (checked_part r h) (write_int 4 (crc (checked_part r h))),
  length-checked_part r h,
  length-write_int 4 (crc (checked_part r h)),
)

-- decode_header on parts of the right lengths
decode_header-parts :
    (a b c d e f : List ℕ)
    → length a ≡ 8
    → length b ≡ 1
    → length c ≡ 3
    → length d ≡ 4
    → length e ≡ 4
    → length f ≡ 4
    → decode_header ((a ++ (b ++ (c ++ (d ++ e)))) ++ f) ≡ record {
      term = read_int a;
      type = read_int b;
      data_len = read_int d;
      data_checksum = read_int e;
      header_checksum = read_int f;
    }
unfolding decode_header
decode_header-parts a b c d e f la lb lc ld le lf =
    let rest : List ℕ = d ++ (e ++ f) in
    let flat : (a ++ (b ++ (c ++ (d ++ e)))) ++ f ≡ a ++ (b ++ (c ++ rest)) = rw (
      append_assoc a (b ++ (c ++ (d ++ e))) f,
      append_assoc b (c ++ (d ++ e)) f,
      append_assoc c (d ++ e) f,
      append_assoc d e f,
    ) in
    let four : drop 4 (b ++ (c ++ rest)) ≡ rest =
      sym (ap (drop 4) (append_assoc b c rest))
      ∙ drop-append_of 4 (b ++ c) rest (omega (arith, length-append b c)) in
    rw (
      flat,
      take-append_of 8 a (b ++ (c ++ rest)) la,
      drop-append_of 8 a (b ++ (c ++ rest)) la,
      take-append_of 1 b (c ++ rest) lb,
      four,
      take-append_of 4 d (e ++ f) ld,
      drop-append_of 4 d (e ++ f) ld,
      take-append_of 4 e f le,
      drop-append_of 4 e f le,
      take-all 4 f (omega arith),
    )

-- Decode undoes Encode.
pub decode_header-encode_header :
    (crc : List ℕ → ℕ) (r : Skipped) (h : EntryHeader)
    → Fits h
    → crc (checked_part r h) < 2 ^ 32
    → decode_header (encode_header crc r h) ≡ record h { header_checksum = crc (checked_part r h) }
unfolding encode_header checked_part
decode_header-encode_header crc r h (t, y, l, k) small =
    decode_header-parts (write_int 8 h.term) (write_int 1 h.type) (skipped_bytes r)
      (write_int 4 h.data_len) (write_int 4 h.data_checksum) (write_int 4 (crc (checked_part r h)))
      (length-write_int 8 h.term) (length-write_int 1 h.type) refl (length-write_int 4 h.data_len)
      (length-write_int 4 h.data_checksum) (length-write_int 4 (crc (checked_part r h)))
    ∙ rw (
      read_int-write_int 8 h.term t,
      read_int-write_int 1 h.type y,
      read_int-write_int 4 h.data_len l,
      read_int-write_int 4 h.data_checksum k,
      read_int-write_int 4 (crc (checked_part r h)) small,
    )

-- the header's own checksum is that of the bytes in front of it
pub verify_checksum-encode_header :
    (crc : List ℕ → ℕ) (r : Skipped) (h : EntryHeader)
    → verify_checksum crc (take 20 (encode_header crc r h)) (crc (checked_part r h)) ≡ true
unfolding encode_header verify_checksum
verify_checksum-encode_header crc r h = rw (
  take-append_of 20 (checked_part r h) (write_int 4 (crc (checked_part r h)))
      (length-checked_part r h),
  ==_refl (crc (checked_part r h)),
)
