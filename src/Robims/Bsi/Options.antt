-- ===== src/Robims/Bsi/Options.antt =====
-- BitSliceIndexCreateOptions, DoInit's choice of the bit depth and the order-preserving codes of
-- float (robims/robims_bsi.h, robims_bsi.cpp). An int64_t is a ℤ in its range, an unsigned word a ℕ;
-- a float is its bit pattern, below 2 ^ 32. The overflow of a signed subtraction is undefined in
-- C++; the theorems state the ranges at which there is none.
pub mod Codes
use myctk.Base.{
  ℕ, zero, suc, ◌+◌, ◌-◌, ◌^◌, ◌%◌, Bool, true, false, not, ◌&&◌, ◌||◌, ltb, leb, ◌==◌,
  if◌then◌else◌,
}
use myctk.Base.Int.{ℤ, pos, negsuc, pos_part, neg_part, sub_ℕ, ◌+ℤ◌}

-- robims.proto
pub data FieldIndexType : Type 0 where
  unknown_index set_index weight_set_index mutex_index int_index float_index bool_index :
      FieldIndexType

-- `D` is the type `double` of the message's min and max
pub record FieldMeta (D : Type 0) : Type 0 where
  pub index_type : FieldIndexType
  pub min : D
  pub max : D
  pub topk_limit : ℤ
  pub max_set_num : ℤ

pub record CreateOptions : Type 0 where
  pub min_int : ℤ
  pub max_int : ℤ
  pub min : ℕ
  pub max : ℕ
  pub limit_topk : ℕ

-- a conversion to an unsigned word of w bits
unfoldable pub to_unsigned : ℕ → ℤ → ℕ
to_unsigned w (pos n) = n % 2 ^ w
to_unsigned w (negsuc n) = 2 ^ w - 1 - n % 2 ^ w

-- (int64_t) of a uint64_t
unfoldable pub to_int64 : ℕ → ℤ
to_int64 v = if ltb v (2 ^ 63) then pos v else negsuc (2 ^ 64 - 1 - v)

unfoldable pub neg : ℤ → ℤ
neg a = sub_ℕ (neg_part a) (pos_part a)

abbrev pub int_max : ℕ
int_max = 2 ^ 31 - 1

unfoldable pub is_zero : ℤ → Bool
is_zero a = pos_part a == 0 && neg_part a == 0

unfoldable pub set_min_max_int : CreateOptions → ℤ → ℤ → CreateOptions
unfolding is_zero to_unsigned neg
set_min_max_int o min_i max_i =
    let max_i' = if is_zero min_i && is_zero max_i then pos int_max else max_i in
    record o {
      min_int = min_i;
      max_int = max_i';
      min = 0;
      max = to_unsigned 64 (max_i' +ℤ neg min_i);
    }

-- `v >= 0`: neither a NaN nor below zero; the pattern 2 ^ 31 is -0
unfoldable pub ge_zero : ℕ → Bool
ge_zero w = leb w 0x7f80_0000 || w == 2 ^ 31

-- `iv |= 0x80000000` sets the highest bit, `~iv` is the complement
unfoldable pub float_to_uint32 : ℕ → ℕ
unfolding ge_zero
float_to_uint32 w = if ge_zero w then w % 2 ^ 31 + 2 ^ 31 else 2 ^ 32 - 1 - w

unfoldable pub uint32_to_float : ℕ → ℕ
uint32_to_float v = if leb (2 ^ 31) v then v % 2 ^ 31 else 2 ^ 32 - 1 - v

-- `0 == v`
unfoldable pub float_is_zero : ℕ → Bool
float_is_zero w = w % 2 ^ 31 == 0

-- (float)INT_MAX, which is 2 ^ 31
abbrev pub int_max_float : ℕ
int_max_float = 0x4f00_0000

unfoldable pub set_min_max_float : CreateOptions → ℕ → ℕ → CreateOptions
unfolding float_is_zero float_to_uint32
set_min_max_float o min_d max_d =
    let max_d' = if float_is_zero min_d && float_is_zero max_d then int_max_float else max_d in
    record o { min = float_to_uint32 min_d; max = float_to_uint32 max_d' }

-- `_max - _min` on uint64_t
unfoldable pub distance : CreateOptions → ℕ
distance o = (o.max + 2 ^ 64 - o.min) % 2 ^ 64

unfoldable pub get_actual_int_val : CreateOptions → ℕ → ℤ
unfolding to_int64
get_actual_int_val o v = to_int64 v +ℤ o.min_int

unfoldable pub to_local_val_int : CreateOptions → ℤ → ℕ
unfolding to_unsigned neg
to_local_val_int o v = to_unsigned 64 (v +ℤ neg o.min_int)

-- the argument of uint32_to_float is converted to 32 bits
unfoldable pub get_actual_float_val : CreateOptions → ℕ → ℕ
unfolding uint32_to_float
get_actual_float_val o v = uint32_to_float ((v + o.min) % 2 ^ 64 % 2 ^ 32)

-- `float_to_uint32(v) - _min` on uint64_t
unfoldable pub to_local_val_float : CreateOptions → ℕ → ℕ
unfolding float_to_uint32
to_local_val_float o v = (float_to_uint32 v + 2 ^ 64 - o.min) % 2 ^ 64

unfoldable pub default_options : CreateOptions
unfolding set_min_max_int
default_options =
    set_min_max_int (record { min_int = pos 0; max_int = pos 0; min = 0; max = 0; limit_topk = 0 })
      (pos 0) (pos int_max)

-- `for (i = 0; i < 64; i++) if (distance < 1 << i) ...`: `rounds` are left, from i; the depth stays
-- 0 if no power is larger
unfoldable pub depth_loop : ℕ → ℕ → ℕ → ℕ
depth_loop zero i distance = 0
depth_loop (suc rounds) i distance =
    let rest = depth_loop rounds (suc i) distance in if ltb distance (2 ^ i) then i else rest

unfoldable pub bit_depth_of : CreateOptions → ℕ
unfolding distance depth_loop
bit_depth_of o = depth_loop 64 0 (distance o)

module _ {D : Type 0} (double_to_int64 : D → ℤ) (double_to_float : D → ℕ) where
  -- `topk` is the uint32_t conversion of the limit
  unfoldable pub init_options : FieldMeta D → CreateOptions
  unfolding default_options set_min_max_int set_min_max_float to_unsigned
  init_options meta =
      let o : CreateOptions = elim meta.index_type [
        | FieldIndexType.float_index ↦
            set_min_max_float default_options (double_to_float meta.min) (double_to_float meta.max)
        | FieldIndexType.set_index ↦ set_min_max_int default_options (pos 0) meta.max_set_num
        | FieldIndexType.weight_set_index ↦ set_min_max_int default_options (pos 0) meta.max_set_num
        | _ ↦ set_min_max_int default_options (double_to_int64 meta.min) (double_to_int64 meta.max)
      ] in
      record o { limit_topk = to_unsigned 32 meta.topk_limit }
