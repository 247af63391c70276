-- ===== src/Robims/Query/Numbers.antt =====
-- int64_t (robims/robims_query.cpp computes with it); `none` is behaviour that C++ leaves undefined: a
-- result out of range and a division by zero.
use myctk.Base.{◌+◌, ◌*◌, ◌/◌, ◌^◌, Bool, Option, none, some, ltb, leb, ◌==◌, xor, if◌then◌else◌}
use myctk.Base.Int.{ℤ, pos, negsuc, pos_part, neg_part, sub_ℕ}

-- int64_t
unfoldable pub int64 : ℤ → Option ℤ
int64 (pos n) = if ltb n (2 ^ 63) then some (pos n) else none
int64 (negsuc n) = if ltb n (2 ^ 63) then some (negsuc n) else none

unfoldable pub equal_ints : ℤ → ℤ → Bool
equal_ints a b = pos_part a + neg_part b == pos_part b + neg_part a

unfoldable pub less_ints : ℤ → ℤ → Bool
less_ints a b = ltb (pos_part a + neg_part b) (pos_part b + neg_part a)

unfoldable pub at_most_ints : ℤ → ℤ → Bool
at_most_ints a b = leb (pos_part a + neg_part b) (pos_part b + neg_part a)

unfoldable pub plus_ints : ℤ → ℤ → Option ℤ
plus_ints a b = int64 (sub_ℕ (pos_part a + pos_part b) (neg_part a + neg_part b))

unfoldable pub minus_ints : ℤ → ℤ → Option ℤ
minus_ints a b = int64 (sub_ℕ (pos_part a + neg_part b) (neg_part a + pos_part b))

unfoldable pub times_ints : ℤ → ℤ → Option ℤ
times_ints a b = int64 (
    sub_ℕ (pos_part a * pos_part b + neg_part a * neg_part b)
      (pos_part a * neg_part b + neg_part a * pos_part b))

-- rounds towards 0
unfoldable pub divided_ints : ℤ → ℤ → Option ℤ
divided_ints a b =
    let size = (pos_part a + neg_part a) / (pos_part b + neg_part b) in
    if equal_ints b (pos 0)
    then none
    else int64 (if xor (less_ints a (pos 0)) (less_ints b (pos 0)) then sub_ℕ 0 size else pos size)
