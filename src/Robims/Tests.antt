-- ===== src/Robims/Tests.antt =====
-- Runs of the bit-sliced index, and its theorems at concrete indexes.
use myctk.Base.{
  ℕ, zero, suc, ◌+◌, ◌^◌, ◌%◌, ◌<◌, ◌≤◌, ◌≡◌, ◌≢◌, refl, Bool, true, false, ◌&&◌, List, [], ◌∷◌,
  some, leb, arith,
}
use myctk.Base.Int.{pos}
use myctk.Robims.Bitmap.Flags.{flags}
use myctk.Robims.Bsi.Options.{CreateOptions, uint32_to_float, distance, bit_depth_of}
use myctk.Robims.Bsi.Options.Codes.{bit_depth-least}
use myctk.Robims.Bsi.Range.Gt.{above}
use myctk.Robims.Bsi.Range.{restrict, do_range_lt, do_range_gt, do_range_between, lt_loop, lt_step}
use myctk.Robims.Bsi.Index.{BitSliceIndex, IsWellFormed, exist, row, do_get, do_get_max, do_get_min}
use myctk.Robims.Bsi.Index.PutGet.{value}
use myctk.Robims.Bsi.TopK.{top_k}
use myctk.Robims.Bsi.Index.Stored.{do_get-do_put}
use myctk.Robims.Bsi.Index.Maximum.{do_get_max_lem}
use myctk.Robims.Bsi.Index.Minimum.{do_get_min_rounds_up}
use myctk.Robims.Bsi.TopK.Largest.{top_k_largest}
use myctk.Robims.Bsi.Index.Queries.{
  holds, below, selected, do_range_gt_exact, do_range_lt_exact, do_range_between_exact,
}
use myctk.Robims.Bsi.Typed.{float_get}
use myctk.Robims.Bsi.Typed.Exact.{float_put_reports_wrong}

abbrev options : CreateOptions
options = record { min_int = pos 10; max_int = pos 17; min = 0; max = 7; limit_topk = 0 }

-- ids 0 to 7 with their own numbers for values
abbrev eight : List Bool
eight = true ∷ true ∷ true ∷ true ∷ true ∷ true ∷ true ∷ true ∷ []

abbrev odd : List Bool
odd = false ∷ true ∷ false ∷ true ∷ false ∷ true ∷ false ∷ true ∷ []

abbrev pairs : List Bool
pairs = false ∷ false ∷ true ∷ true ∷ false ∷ false ∷ true ∷ true ∷ []

abbrev upper : List Bool
upper = false ∷ false ∷ false ∷ false ∷ true ∷ true ∷ true ∷ true ∷ []

abbrev pub count_up : BitSliceIndex flags
count_up = record { options = options; bitmaps = eight ∷ odd ∷ pairs ∷ upper ∷ []; bit_depth = 3 }

pub count_up-IsWellFormed : IsWellFormed flags count_up
count_up-IsWellFormed = omega arith

-- id 0 with the value 4
abbrev four : BitSliceIndex flags
four = record {
  options = options;
  bitmaps = (true ∷ []) ∷ (false ∷ []) ∷ (false ∷ []) ∷ (true ∷ []) ∷ [];
  bit_depth = 3;
}

-- `< 5` over 0 to 7: 1, 3, 4 and 5
less_than_five :
    do_range_lt flags (exist flags count_up) (row flags count_up) 3 5 false []
    ≡ false ∷ true ∷ false ∷ true ∷ true ∷ true ∷ false ∷ false ∷ []
unfolding do_range_lt lt_loop lt_step restrict
less_than_five = refl

do_range_lt_exact_example :
    flags.contains (do_range_lt flags (exist flags count_up) (row flags count_up) 3 4 false []) 2
    ≡ (selected flags [] 2 && holds (below false (4 % 2 ^ 3)) (do_get flags count_up 2))
do_range_lt_exact_example = do_range_lt_exact flags count_up 2 4 false [] (omega arith)

do_range_between_exact_example :
    flags.contains (do_range_between flags (exist flags count_up) (row flags count_up) 3 2 5 []) 4
    ≡ (selected flags [] 4
        && holds (λ v. leb (2 % 2 ^ 3) v && leb v (5 % 2 ^ 3)) (do_get flags count_up 4))
do_range_between_exact_example = do_range_between_exact flags count_up 4 2 5 []

do_get-do_put_example :
    IsWellFormed flags (do_get-do_put flags count_up 9 6 count_up-IsWellFormed refl).0
do_get-do_put_example = (do_get-do_put flags count_up 9 6 count_up-IsWellFormed refl).2

do_get_max_lem_example :
    (x : ℕ) × (flags.contains (restrict flags (exist flags count_up) []) x ≡ true)
    × (value flags count_up x ≡ (do_get_max flags count_up []).0)
unfolding restrict
do_get_max_lem_example =
    (do_get_max_lem flags count_up [] (omega arith) (omega arith) (omega arith)).0

four_least :
    (y : ℕ)
    → flags.contains (restrict flags (exist flags four) []) y ≡ true
    → value flags four 0 ≤ value flags four y
unfolding restrict
four_least zero h = omega arith
four_least (suc y) h = cc

do_get_min_rounds_up_example : (k : ℕ) × ((do_get_min flags four []).0 + 1 ≡ 2 ^ k)
unfolding restrict
do_get_min_rounds_up_example =
    (do_get_min_rounds_up flags four [] 0 (omega arith) refl four_least).0

top_k_largest_example : flags.cardinality (top_k flags count_up 3 []) ≤ 3
top_k_largest_example = (top_k_largest flags count_up 3 (omega arith)).0

-- the same bitmaps with floats from 0.0
abbrev floats : BitSliceIndex flags
floats = record four {
  options = record {
    min_int = pos 0;
    max_int = pos 0;
    min = 2 ^ 31;
    max = 2 ^ 31 + 7;
    limit_topk = 0;
  };
}

floats-IsWellFormed : IsWellFormed flags floats
floats-IsWellFormed = omega arith

floats_get : do_get flags floats 0 ≡ some 4
unfolding do_get
floats_get = refl

float_put_reports_wrong_example : some (uint32_to_float 4) ≢ float_get flags floats 0
float_put_reports_wrong_example =
    (float_put_reports_wrong flags floats 0 7 4 floats-IsWellFormed refl floats_get (omega arith)
      (omega arith)).2

bit_depth-least_example : distance options < 2 ^ bit_depth_of options
unfolding distance
bit_depth-least_example = (bit_depth-least options (omega arith)).0

do_range_gt_exact_example :
    flags.contains (do_range_gt flags (exist flags count_up) (row flags count_up) 3 5 false eight) 6
    ≡ (selected flags eight 6 && holds (above false (5 % 2 ^ 3)) (do_get flags count_up 6))
do_range_gt_exact_example = do_range_gt_exact flags count_up 6 5 false eight (omega arith)
