-- ===== src/Mraft/Storage/Append.antt =====
-- SegmentLogStorage::AppendEntry against the log that the storage stands for
-- (mraft/segment_log_storage.cpp).
use myctk.Base.{
  ℕ, ◌+◌, ◌≤◌, ◌≡◌, refl, ap, sym, subst, ◌∙◌, true, false, List, [], ◌∷◌, ◌++◌, length, ltb, ◌==◌,
  ==_iff, Bool-cases, Option-cases, inl, inr, none, some, arith, length-append, append_assoc,
  append-nil,
}
use myctk.Base.Int.{ℤ, pos}
use myctk.Mraft.Header.{Skipped, header_length}
use myctk.Mraft.Segment.{LogEntry, Segment, Written, in_progress, append, close}
use myctk.Mraft.Segment.Layout.{Stored, SizedEntry, encode_all}
use myctk.Mraft.Segment.Change.{in_progress-Holds, append-Holds}
use myctk.Mraft.Storage.{
  SegmentLogStorage, OpenCalls, put_segment, create_segment, returned, get_open_segment,
  append_to_open, append_entry,
}
use myctk.Mraft.Storage.Chain.{Chain, Chain-open_first}
use myctk.Mraft.Storage.Entries.{entries_of, Latest, Represents}

abbrev pub calls_succeed : OpenCalls
calls_succeed = record { creates = true; renamed = pos 0 }

Chain-in_progress :
    (crc : List ℕ → ℕ) (first : ℕ) → 1 ≤ first → Chain crc [] (some (in_progress first)) first []
unfolding Chain in_progress
Chain-in_progress crc first one = (in_progress-Holds crc first one, refl, refl)

nonempty-of_bytes :
    (crc : List ℕ → ℕ) (es : List Stored) → 1 ≤ length (encode_all crc es) → 1 ≤ length es
nonempty-of_bytes crc [] h = absurd (omega arith)
nonempty-of_bytes crc (x ∷ es) h = omega arith

entries_of-snoc :
    (es : List Stored) (r : Skipped) (e : LogEntry)
    → entries_of (es ++ (r, e) ∷ []) ≡ entries_of es ++ e ∷ []
entries_of-snoc [] r e = refl
entries_of-snoc ((q, x) ∷ es) r e = ap (λ t. x ∷ t) (entries_of-snoc es r e)

module _ (crc : List ℕ → ℕ) where
  -- a new segment after the others
  Chain-fresh :
      (ss : List Segment) (first : ℕ) (es : List Stored)
      → Chain crc ss none first es
      → 1 ≤ first
      → Chain crc ss (some (in_progress (first + length es))) first es
  unfolding Chain
  Chain-fresh [] first es h one = rw h (
      subst (λ n. Chain crc [] (some (in_progress n)) first []) (omega arith)
        (Chain-in_progress crc first one))
  Chain-fresh (s ∷ ss) first es (xs, ys, split, h, f, full, rest) one = (
    xs,
    ys,
    split,
    h,
    f,
    full,
    subst (λ n. Chain crc ss (some (in_progress n)) (first + length xs) ys)
        (omega (arith, ap length split, length-append xs ys))
        (Chain-fresh ss (first + length xs) ys rest (omega arith)),
  )

  -- the full open segment, closed and put behind the others, and a new one after it
  Chain-roll :
      (ss : List Segment) (s : Segment) (first : ℕ) (es : List Stored)
      → Chain crc ss (some s) first es
      → 1 ≤ s.bytes
      → 1 ≤ first
      → Chain crc
          (put_segment (record s { is_open = false }) ss)
          (some (in_progress (first + length es)))
          first
          es
  unfolding Chain put_segment
  Chain-roll [] s first es (h, o, f) used one = (
    es,
    [],
    sym (append-nil es),
    h,
    f,
    nonempty-of_bytes crc es (omega (arith, h.2)),
    Chain-in_progress crc (first + length es) (omega arith),
  )
  Chain-roll (x ∷ ss) s first es (xs, ys, split, h, f, full, rest) used one =
      let after : first + length xs ≤ s.first_index =
        Chain-open_first crc ss s (first + length xs) ys rest in
      let not_before : ltb s.first_index x.first_index ≡ false = ground arith in
      let not_same : (s.first_index == x.first_index) ≡ false =
        ground (arith, ==_iff s.first_index x.first_index) in
      let ends : first + length xs + length ys ≡ first + length es =
        omega (arith, ap length split, length-append xs ys) in
      let closed : Segment = record s { is_open = false } in
      let rolled = Chain-roll ss s (first + length xs) ys rest used (omega arith) in
      rw (not_before, not_same)
        (
          xs,
          ys,
          split,
          h,
          f,
          full,
          subst
              (λ n. Chain crc (put_segment closed ss) (some (in_progress n)) (first + length xs) ys)
              ends rolled,
        )

  -- Append to the open segment
  Chain-append :
      (ss : List Segment) (s : Segment) (first : ℕ) (es : List Stored) (r : Skipped) (w : Written)
      (e : LogEntry)
      → Chain crc ss (some s) first es
      → e.index ≡ first + length es
      → SizedEntry e
      → w.count ≡ header_length + length e.payload
      → ((append crc r w s e).0 ≡ 0)
        × Chain crc ss (some ((append crc r w s e).1)) first (es ++ (r, e) ∷ [])
  unfolding Chain
  Chain-append [] s first es r w e (h, o, f) i z c =
      let (code, holds, o', f') = append-Holds crc s es r w e h o (omega (arith, h.3)) z c in
      (code, (holds, o', f' ∙ f))
  Chain-append (x ∷ ss) s first es r w e (xs, ys, split, h, f, full, rest) i z c =
      let (code, chain) =
        Chain-append ss s (first + length xs) ys r w e rest
          (omega (arith, ap length split, length-append xs ys)) z c in
      (
        code,
        (
          xs,
          ys ++ (r, e) ∷ [],
          ap (λ t. t ++ (r, e) ∷ []) split ∙ append_assoc xs ys ((r, e) ∷ []),
          h,
          f,
          full,
          chain,
        ),
      )

module _ (crc : List ℕ → ℕ) where
  pub Chain-is_open :
      (ss : List Segment) (s : Segment) (first : ℕ) (es : List Stored)
      → Chain crc ss (some s) first es
      → s.is_open ≡ true
  unfolding Chain
  Chain-is_open [] s first es (h, o, f) = o
  Chain-is_open (x ∷ ss) s first es (xs, ys, split, h, f, full, rest) =
      Chain-is_open ss s (first + length xs) ys rest

close-open :
    (rc : ℤ) (s : Segment) → s.is_open ≡ true → close rc s ≡ (rc, record s { is_open = false })
unfolding close
close-open rc s o = rw o

module _ (crc : List ℕ → ℕ) where
  -- GetOpenSegment, when its calls succeed
  get_open_segment-Represents :
      (max_size : ℕ) (st : SegmentLogStorage) (base : ℕ) (es : List Stored)
      → Represents crc st base es
      → ((get_open_segment max_size calls_succeed st).0 ≡ true)
        × Represents crc ((get_open_segment max_size calls_succeed st).1) base es
        × ((s : Segment) × ((get_open_segment max_size calls_succeed st).1.open_segment ≡ some s))
        × ((get_open_segment max_size calls_succeed st).1.last_log_index ≡ st.last_log_index)
  unfolding get_open_segment returned create_segment
  get_open_segment-Represents max_size st base es h =
      let (chain, size, one, low, high, cache, latest) = h in
      elim (Option-cases st.open_segment) [
        | inl none_open ↦
            let fresh : Chain crc st.segments (some (in_progress (st.last_log_index + 1))) base es =
              subst (λ n. Chain crc st.segments (some (in_progress n)) base es) (sym size)
                (Chain-fresh crc st.segments base es
                  (subst (λ o. Chain crc st.segments o base es) none_open chain) one) in
            rw (none_open, get_open_segment)
              (refl, (fresh, size, one, low, high, cache, latest), (_, refl), refl)
        | inr (s, open_now) ↦
            let held = subst (λ o. Chain crc st.segments o base es) open_now chain in
            elim (Bool-cases (ltb max_size s.bytes)) [
              | inl full ↦
                  let rolled : Chain crc (put_segment (record s { is_open = false }) st.segments)
                      (some (in_progress (st.last_log_index + 1))) base es =
                    subst
                      (λ n.
                        Chain crc (put_segment (record s { is_open = false }) st.segments)
                          (some (in_progress n)) base es)
                      (sym size) (Chain-roll crc st.segments s base es held (ground arith) one) in
                  let closes =
                    close-open (pos 0) s (Chain-is_open crc st.segments s base es held) in
                  rw (open_now, get_open_segment, full, closes)
                    (refl, (rolled, size, one, low, high, cache, latest), (_, refl), refl)
              | inr room ↦ rw (open_now, get_open_segment, room) (refl, h, (s, open_now), refl)
            ]
      ]

  append_to_open-Represents :
      (st : SegmentLogStorage) (base : ℕ) (es : List Stored) (r : Skipped) (w : Written)
      (e : LogEntry) (s : Segment)
      → st.open_segment ≡ some s
      → Represents crc st base es
      → e.index ≡ st.last_log_index + 1
      → SizedEntry e
      → w.count ≡ header_length + length e.payload
      → ((append_to_open crc r w e true st (some s)).0 ≡ 0)
        × Represents crc ((append_to_open crc r w e true st (some s)).1) base (es ++ (r, e) ∷ [])
  unfolding append_to_open Latest
  append_to_open-Represents st base es r w e s here
        (chain, size, one, low, high, (pre, post, split, eq, from), latest) i z c =
      let held = subst (λ o. Chain crc st.segments o base es) here chain in
      let (code, longer) = Chain-append crc st.segments s base es r w e held (i ∙ size) z c in
      rw code (
        refl,
        (
          longer,
          omega (arith, length-append es ((r, e) ∷ [])),
          one,
          low,
          omega arith,
          (
            pre,
            post ++ (r, e) ∷ [],
            ap (λ t. t ++ (r, e) ∷ []) split ∙ append_assoc pre post ((r, e) ∷ []),
            ap (λ t. t ++ e ∷ []) eq ∙ sym (entries_of-snoc post r e),
            from,
          ),
          (es, r, refl, omega arith),
        ),
      )

  -- AppendEntry of the entry with the next index, when its calls succeed and the write is whole,
  -- returns 0, and the storage stands for the log with the entry at its end. So it does when the open
  -- segment is full and is closed first, and when there is none.
  pub append_entry-Represents :
      (max_size : ℕ) (st : SegmentLogStorage) (base : ℕ) (es : List Stored) (r : Skipped)
      (w : Written) (e : LogEntry)
      → Represents crc st base es
      → e.index ≡ st.last_log_index + 1
      → SizedEntry e
      → w.count ≡ header_length + length e.payload
      → ((append_entry crc max_size calls_succeed r w st e).0 ≡ 0)
        × Represents crc
            ((append_entry crc max_size calls_succeed r w st e).1)
            base
            (es ++ (r, e) ∷ [])
  unfolding append_entry
  append_entry-Represents max_size st base es r w e h i z c =
      let (found, rep, (s, open_now), last) = get_open_segment-Represents max_size st base es h in
      rw (found, open_now)
        (append_to_open-Represents ((get_open_segment max_size calls_succeed st).1) base es r w e s
          open_now rep (i ∙ omega arith) z c)
