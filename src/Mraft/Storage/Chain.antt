-- ===== src/Mraft/Storage/Chain.antt =====
-- The segments of a storage as one log (mraft/segment_log_storage.cpp): each segment holds the
-- entries that come after those of the segment before it, and the lookup of an index finds the
-- segment with its entry.
use myctk.Base.{
  ℕ, zero, suc, ◌+◌, ◌-◌, ◌^◌, ◌<◌, ◌≤◌, ◌≡◌, refl, ap, sym, subst, ◌∙◌, true, false, List, [], ◌∷◌,
  ◌++◌, length, ltb, leb, Bool-cases, inl, inr, Option, none, some, arith, length-append,
}
use myctk.Mraft.Segment.{LogEntry, Segment, get}
use myctk.Mraft.Segment.Layout.{Stored}
use myctk.Mraft.Segment.Kept.{Holds, Numbered, split_at}
use myctk.Mraft.Segment.Read.{entry_at, entry_at-append, get-entry_at}
use myctk.Mraft.Storage.{segment_before, lookup}

-- the segments in order, then the open one, hold the entries from the index `first` on
unfoldable pub Chain : (List ℕ → ℕ) → List Segment → Option Segment → ℕ → List Stored → Type 0
Chain crc [] none first es = es ≡ []
Chain crc [] (some s) first es = Holds crc s es [] × (s.is_open ≡ true) × (s.first_index ≡ first)
Chain crc (s ∷ ss) current first es =
    (xs : List Stored) × (ys : List Stored) × (es ≡ xs ++ ys)
    × Holds crc s xs []
    × (s.first_index ≡ first)
    × (1 ≤ length xs)
    × Chain crc ss current (first + length xs) ys

pub Numbered-append :
    (xs ys : List Stored) (first : ℕ)
    → Numbered first xs
    → Numbered (first + length xs) ys
    → Numbered first (xs ++ ys)
unfolding Numbered
Numbered-append [] ys first h h' = subst (λ n. Numbered n ys) (omega arith) h'
Numbered-append ((r, e) ∷ xs) ys first (i, z, h) h' =
    (i, z, Numbered-append xs ys (suc first) h (subst (λ n. Numbered n ys) (omega arith) h'))

pub entry_at-front :
    (xs ys : List Stored) (i : ℕ) → i < length xs → entry_at (xs ++ ys) i ≡ entry_at xs i
unfolding entry_at
entry_at-front [] ys i h = absurd (omega arith)
entry_at-front (x ∷ xs) ys zero h = refl
entry_at-front (x ∷ xs) ys (suc i) h = entry_at-front xs ys i (omega arith)

pub entry_at-back :
    (xs ys : List Stored) (i : ℕ) → entry_at (xs ++ ys) (length xs + i) ≡ entry_at ys i
unfolding entry_at
entry_at-back [] ys i = ap (entry_at ys) (omega arith)
entry_at-back (x ∷ xs) ys i =
    let at : suc (length xs) + i ≡ suc (length xs + i) = omega arith in
    ap (entry_at (x ∷ (xs ++ ys))) at ∙ entry_at-back xs ys i

pub entry_at-inside :
    (es : List Stored) (i : ℕ) → i < length es → (e : LogEntry) × (entry_at es i ≡ some e)
entry_at-inside es i h =
    let (xs, r, e, ys, split, len) = split_at es i h in
    (
      e,
      ap (λ t. entry_at t i) split
          ∙ ap (entry_at (xs ++ (r, e) ∷ ys)) (sym len)
          ∙ entry_at-append xs ys r e,
    )

module _ (crc : List ℕ → ℕ) where
  pub Chain-Numbered :
      (ss : List Segment) (current : Option Segment) (first : ℕ) (es : List Stored)
      → Chain crc ss current first es
      → Numbered first es
  unfolding Chain
  Chain-Numbered [] none first es h = subst (Numbered first) (sym h) (unfold Numbered in tt)
  Chain-Numbered [] (some s) first es (h, o, f) = subst (λ n. Numbered n es) f h.5
  Chain-Numbered (s ∷ ss) current first es (xs, ys, split, h, f, full, rest) =
      subst (Numbered first) (sym split) (
        Numbered-append xs ys first (subst (λ n. Numbered n xs) f h.5)
          (Chain-Numbered ss current (first + length xs) ys rest))

  -- the open segment begins after the others
  pub Chain-open_first :
      (ss : List Segment) (s : Segment) (first : ℕ) (es : List Stored)
      → Chain crc ss (some s) first es
      → first ≤ s.first_index
  unfolding Chain
  Chain-open_first [] s first es (h, o, f) = omega arith
  Chain-open_first (x ∷ ss) s first es (xs, ys, split, h, f, full, rest) =
      omega (arith, Chain-open_first ss s (first + length xs) ys rest)

  pub Chain-last_index :
      (ss : List Segment) (s : Segment) (first : ℕ) (es : List Stored)
      → Chain crc ss (some s) first es
      → s.last_index + 1 ≡ first + length es
  unfolding Chain
  Chain-last_index [] s first es (h, o, f) = omega (arith, h.3)
  Chain-last_index (x ∷ ss) s first es (xs, ys, split, h, f, full, rest) = omega (
    arith,
    Chain-last_index ss s (first + length xs) ys rest,
    ap length split,
    length-append xs ys,
  )

  segment_before-none :
      (ss : List Segment) (current : Option Segment) (first index : ℕ) (es : List Stored)
      → Chain crc ss current first es
      → index < first
      → segment_before ss index ≡ none
  unfolding Chain segment_before
  segment_before-none [] current first index es h low = refl
  segment_before-none (x ∷ ss) current first index es (xs, ys, split, h, f, full, rest) low =
      let after : leb x.first_index index ≡ false = ground arith in rw after

  pub lookup-here :
      (ss : List Segment) (s : Segment) (current : Option Segment) (first index : ℕ)
      (es : List Stored)
      → Chain crc ss current first es
      → s.first_index ≤ index
      → index < first
      → lookup (s ∷ ss) current index ≡ some s
  unfolding lookup segment_before
  lookup-here ss s none first index es h from low =
      let this : leb s.first_index index ≡ true = ground arith in
      rw (segment_before-none ss none first index es h low, this, segment_before)
  lookup-here ss s (some o) first index es h from low =
      let this : leb s.first_index index ≡ true = ground arith in
      let not_open : leb o.first_index index ≡ false =
        ground (arith, Chain-open_first ss o first es h) in
      rw (not_open, segment_before-none ss (some o) first index es h low, this, segment_before)

  pub lookup-later :
      (ss : List Segment) (s t : Segment) (current : Option Segment) (index : ℕ)
      → s.first_index ≤ index
      → lookup ss current index ≡ some t
      → lookup (s ∷ ss) current index ≡ some t
  unfolding lookup segment_before
  lookup-later ss s t none index from found =
      let this : leb s.first_index index ≡ true = ground arith in rw (found, this, segment_before)
  lookup-later ss s t (some o) index from found = elim (Bool-cases (leb o.first_index index)) [
    | inl inside ↦ rw inside (rw inside at found)
    | inr outside ↦
        let this : leb s.first_index index ≡ true = ground arith in
        let found1 : segment_before ss index ≡ some t = rw outside at found in
        rw (outside, found1, this, segment_before)
  ]

module _ (crc : List ℕ → ℕ) (crc_small : (bs : List ℕ) → crc bs < 2 ^ 32) where
  get-first :
      (s : Segment) (es : List Stored) (first index : ℕ)
      → Holds crc s es []
      → s.first_index ≡ first
      → first ≤ index
      → get crc s index ≡ entry_at es (index - first)
  get-first s es first index h f from =
      let not_low : ltb index s.first_index ≡ false = ground arith in
      get-entry_at crc crc_small s es [] index h ∙ rw (not_low, f)

  -- the segment that is looked up has the entry
  pub lookup-Chain :
      (ss : List Segment) (current : Option Segment) (first index : ℕ) (es : List Stored)
      → Chain crc ss current first es
      → first ≤ index
      → index < first + length es
      → (s : Segment) × (lookup ss current index ≡ some s)
        × (get crc s index ≡ entry_at es (index - first))
  unfolding Chain
  lookup-Chain [] none first index es h from below = absurd (omega (arith, ap length h))
  lookup-Chain [] (some s) first index es (h, o, f) from below =
      let this : leb s.first_index index ≡ true = ground arith in
      (s, unfold lookup in rw this, get-first s es first index h f from)
  lookup-Chain (s ∷ ss) current first index es (xs, ys, split, h, f, full, rest) from below =
      elim (Bool-cases (ltb index (first + length xs))) [
        | inl here ↦ (
          s,
          lookup-here crc ss s current (first + length xs) index ys rest (omega arith)
              (ground arith),
          get-first s xs first index h f from
              ∙ sym (entry_at-front xs ys (index - first) (ground arith))
              ∙ ap (λ t. entry_at t (index - first)) (sym split),
        )
        | inr later ↦
            let size : length es ≡ length xs + length ys = ap length split ∙ length-append xs ys in
            let (t, found, read) =
              lookup-Chain ss current (first + length xs) index ys rest (ground arith)
                (omega arith) in
            let at : length xs + (index - (first + length xs)) ≡ index - first = ground arith in
            (
              t,
              lookup-later crc ss s t current index (omega arith) found,
              read
                  ∙ sym (entry_at-back xs ys (index - (first + length xs)))
                  ∙ ap (entry_at (xs ++ ys)) at
                  ∙ ap (λ t. entry_at t (index - first)) (sym split),
            )
      ]
