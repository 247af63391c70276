-- ===== src/Robims/Bitmap/Flags.antt =====
-- A value of the bitmap interface, which shows that its laws can hold: one flag for each id.
use myctk.Base.{
  ℕ, zero, suc, ◌+◌, ◌<◌, ◌≡◌, refl, ap, sym, ◌∙◌, Bool, true, false, not, ◌&&◌, ◌||◌, xor, List,
  [], ◌∷◌, length, get_or, elem, ◌==◌, arith,
}
use myctk.Robims.Bitmap.{RoaringBitmap}

abbrev pub Flags : Type 0
Flags = List Bool

abbrev flag : Flags → ℕ → Bool
flag l x = get_or l x false

abbrev merge : (Bool → Bool → Bool) → Flags → Flags → Flags
merge f [] [] = []
merge f [] (b ∷ bs) = f false b ∷ merge f [] bs
merge f (a ∷ rest) [] = f a false ∷ merge f rest []
merge f (a ∷ rest) (b ∷ bs) = f a b ∷ merge f rest bs

abbrev put : Bool → Flags → ℕ → Flags
put v [] zero = v ∷ []
put v [] (suc x) = false ∷ put v [] x
put v (b ∷ bs) zero = v ∷ bs
put v (b ∷ bs) (suc x) = b ∷ put v bs x

abbrev one : Bool → ℕ
one true = 1
one false = 0

abbrev count : Flags → ℕ
count [] = 0
count (b ∷ bs) = one b + count bs

abbrev none_set : Flags → Bool
none_set [] = true
none_set (true ∷ bs) = false
none_set (false ∷ bs) = none_set bs

-- the ids of the flags that are set, from n on
abbrev pub cons_if : Bool → ℕ → List ℕ → List ℕ
cons_if true n xs = n ∷ xs
cons_if false n xs = xs

abbrev pub indices : ℕ → Flags → List ℕ
indices n [] = []
indices n (b ∷ bs) = cons_if b n (indices (suc n) bs)

pub flag-merge :
    (f : Bool → Bool → Bool)
    → f false false ≡ false
    → (a b : Flags) (x : ℕ) → flag (merge f a b) x ≡ f (flag a x) (flag b x)
flag-merge f h [] [] x = sym h
flag-merge f h [] (b ∷ bs) zero = refl
flag-merge f h [] (b ∷ bs) (suc x) = flag-merge f h [] bs x
flag-merge f h (a ∷ rest) [] zero = refl
flag-merge f h (a ∷ rest) [] (suc x) = flag-merge f h rest [] x
flag-merge f h (a ∷ rest) (b ∷ bs) zero = refl
flag-merge f h (a ∷ rest) (b ∷ bs) (suc x) = flag-merge f h rest bs x

pub flag-add : (a : Flags) (y x : ℕ) → flag (put true a y) x ≡ (x == y || flag a x)
flag-add [] zero zero = ground arith
flag-add [] zero (suc x) = ground arith
flag-add [] (suc y) zero = ground arith
flag-add [] (suc y) (suc x) = ground (arith, flag-add [] y x)
flag-add (b ∷ bs) zero zero = ground arith
flag-add (b ∷ bs) zero (suc x) = ground arith
flag-add (b ∷ bs) (suc y) zero = ground arith
flag-add (b ∷ bs) (suc y) (suc x) = ground (arith, flag-add bs y x)

pub flag-remove : (a : Flags) (y x : ℕ) → flag (put false a y) x ≡ (not (x == y) && flag a x)
flag-remove [] zero zero = ground arith
flag-remove [] zero (suc x) = ground arith
flag-remove [] (suc y) zero = ground arith
flag-remove [] (suc y) (suc x) = ground (arith, flag-remove [] y x)
flag-remove (b ∷ bs) zero zero = ground arith
flag-remove (b ∷ bs) zero (suc x) = ground arith
flag-remove (b ∷ bs) (suc y) zero = ground arith
flag-remove (b ∷ bs) (suc y) (suc x) = ground (arith, flag-remove bs y x)

pub none_set-flag : (a : Flags) → none_set a ≡ true → (x : ℕ) → flag a x ≡ false
none_set-flag [] h x = refl
none_set-flag (true ∷ bs) h x = cc
none_set-flag (false ∷ bs) h zero = refl
none_set-flag (false ∷ bs) h (suc x) = none_set-flag bs h x

pub none_set_of : (a : Flags) → ((x : ℕ) → flag a x ≡ false) → none_set a ≡ true
none_set_of [] h = refl
none_set_of (true ∷ bs) h = cc (h 0)
none_set_of (false ∷ bs) h = none_set_of bs (λ x. h (suc x))

pub count-flag : (a : Flags) → count a ≡ 0 → (x : ℕ) → flag a x ≡ false
count-flag [] h x = refl
count-flag (true ∷ bs) h x = absurd (omega arith)
count-flag (false ∷ bs) h zero = refl
count-flag (false ∷ bs) h (suc x) = count-flag bs (omega arith) x

pub count_of : (a : Flags) → ((x : ℕ) → flag a x ≡ false) → count a ≡ 0
count_of [] h = refl
count_of (true ∷ bs) h = cc (h 0)
count_of (false ∷ bs) h = omega (arith, count_of bs (λ x. h (suc x)))

pub count_ext : (a b : Flags) → ((x : ℕ) → flag a x ≡ flag b x) → count a ≡ count b
count_ext [] b h = sym (count_of b (λ x. sym (h x)))
count_ext (a ∷ rest) [] h = count_of (a ∷ rest) h
count_ext (a ∷ rest) (b ∷ bs) h = ground (arith, h 0, count_ext rest bs (λ x. h (suc x)))

abbrev or : Bool → Bool → Bool
or a b = a || b

abbrev and : Bool → Bool → Bool
and a b = a && b

pub count-or : (a b : Flags) → count (merge or a b) + count (merge and a b) ≡ count a + count b
count-or [] [] = omega arith
count-or [] (b ∷ bs) = ground (arith, count-or [] bs)
count-or (a ∷ rest) [] = ground (arith, count-or rest [])
count-or (a ∷ rest) (b ∷ bs) = ground (arith, count-or rest bs)

-- ids below n are not listed
elem-indices_below : (n x : ℕ) (a : Flags) → x < n → elem x (indices n a) ≡ false
elem-indices_below n x [] h = refl
elem-indices_below n x (true ∷ bs) h = ground (arith, elem-indices_below (suc n) x bs)
elem-indices_below n x (false ∷ bs) h = elem-indices_below (suc n) x bs (omega arith)

elem-indices : (n x : ℕ) (a : Flags) → elem (n + x) (indices n a) ≡ flag a x
elem-indices n x [] = refl
elem-indices n zero (true ∷ bs) = ground arith
elem-indices n zero (false ∷ bs) = elem-indices_below (suc n) (n + 0) bs (omega arith)
elem-indices n (suc x) (true ∷ bs) =
    let shift : n + suc x ≡ suc n + x = omega arith in
    ground (arith, elem-indices (suc n) x bs, ap (λ k. elem k (indices (suc n) bs)) shift)
elem-indices n (suc x) (false ∷ bs) =
    let shift : n + suc x ≡ suc n + x = omega arith in
    ap (λ k. elem k (indices (suc n) bs)) shift ∙ elem-indices (suc n) x bs

pub length-indices : (n : ℕ) (a : Flags) → length (indices n a) ≡ count a
length-indices n [] = refl
length-indices n (true ∷ bs) = omega (arith, length-indices (suc n) bs)
length-indices n (false ∷ bs) = omega (arith, length-indices (suc n) bs)

pub elem-indices_zero : (a : Flags) (x : ℕ) → elem x (indices 0 a) ≡ flag a x
elem-indices_zero a x =
    let shift : x ≡ 0 + x = omega arith in ap (λ k. elem k (indices 0 a)) shift ∙ elem-indices 0 x a

abbrev pub flags : RoaringBitmap
flags = record {
  Bitmap = Flags;
  contains = flag;
  create = [];
  bitmap_and = merge and;
  bitmap_andnot = merge (λ a b. a && not b);
  bitmap_or = merge or;
  bitmap_xor = merge xor;
  add = put true;
  remove = put false;
  is_empty = none_set;
  cardinality = count;
  to_uint32_array = indices 0;
  contains-create = λ x. refl;
  contains-and = flag-merge and refl;
  contains-andnot = flag-merge (λ a b. a && not b) refl;
  contains-or = flag-merge or refl;
  contains-xor = flag-merge xor refl;
  contains-add = flag-add;
  contains-remove = flag-remove;
  is_empty_iff = λ a. (none_set-flag a, none_set_of a);
  cardinality_zero = λ a. (count-flag a, count_of a);
  cardinality_ext = count_ext;
  cardinality-or = count-or;
  elem-to_uint32_array = elem-indices_zero;
  length-to_uint32_array = length-indices 0;
}
