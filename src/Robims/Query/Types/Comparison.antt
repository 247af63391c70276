-- ===== src/Robims/Query/Types/Comparison.antt =====
-- What the six comparisons of QueryCalc have in common (robims/robims_query.cpp).
use myctk.Base.{Bool, ◌≡◌, refl, Option, none, some}
use myctk.Base.Int.{ℤ}
use myctk.Base.Name.{Name}
use myctk.Robims.Bitmap.{RoaringBitmap}
use myctk.Robims.Field.{FieldOperator, FieldArg, int_arg, double_arg}
use myctk.Robims.Query.{Fields, Optoken, Scalar, whole, real, other}
use myctk.Robims.Query.Calc.{
  Value, scalar_of, compared, equality_arg, order_arg, compare_field, or_field, calc_equal,
  calc_not_equal, calc_less, calc_less_equal, calc_greater, calc_greater_equal, calc,
}
use myctk.Robims.Query.Types.{Compares, eq, neq, lt, lte, gt, gte}

module _ (roaring : RoaringBitmap) (fields : Fields roaring) where
  open fields use {doubles, Field, select}
  open doubles use {Double}
  open roaring use {Bitmap}

  -- what all comparisons do
  pub record Comparison (op : Optoken) (l r : FieldOperator) : Type 0 where
    pub on_ints : ℤ → ℤ → Bool
    pub on_doubles : Double → Double → Bool
    pub on_texts : Name → Name → Bool
    pub arg : Scalar Double → Option (FieldArg Double)
    pub calc_lem :
        (u v : Value roaring fields)
        → calc roaring fields op u v
          ≡ some (
              or_field roaring fields
                (compared roaring fields on_ints on_doubles on_texts
                  (scalar_of roaring fields u)
                  (scalar_of roaring fields v))
                (compare_field roaring fields arg l r u v))
    pub arg_int : (n : ℤ) → arg (whole n) ≡ some (int_arg n)
    pub arg_double : (d : Double) → arg (real d) ≡ some (double_arg d)
    pub arg_other : arg other ≡ none

  pub comparison : {op : Optoken} {l r : FieldOperator} → Compares op l r → Comparison op l r
  unfolding calc calc_equal calc_not_equal calc_less calc_less_equal calc_greater calc_greater_equal
      equality_arg order_arg
  comparison eq = record {
    on_ints = _;
    on_doubles = _;
    on_texts = _;
    arg = equality_arg roaring fields;
    calc_lem = λ u v. refl;
    arg_int = λ n. refl;
    arg_double = λ d. refl;
    arg_other = refl;
  }
  comparison neq = record {
    on_ints = _;
    on_doubles = _;
    on_texts = _;
    arg = equality_arg roaring fields;
    calc_lem = λ u v. refl;
    arg_int = λ n. refl;
    arg_double = λ d. refl;
    arg_other = refl;
  }
  comparison lt = record {
    on_ints = _;
    on_doubles = _;
    on_texts = _;
    arg = order_arg roaring fields;
    calc_lem = λ u v. refl;
    arg_int = λ n. refl;
    arg_double = λ d. refl;
    arg_other = refl;
  }
  comparison lte = record {
    on_ints = _;
    on_doubles = _;
    on_texts = _;
    arg = order_arg roaring fields;
    calc_lem = λ u v. refl;
    arg_int = λ n. refl;
    arg_double = λ d. refl;
    arg_other = refl;
  }
  comparison gt = record {
    on_ints = _;
    on_doubles = _;
    on_texts = _;
    arg = order_arg roaring fields;
    calc_lem = λ u v. refl;
    arg_int = λ n. refl;
    arg_double = λ d. refl;
    arg_other = refl;
  }
  comparison gte = record {
    on_ints = _;
    on_doubles = _;
    on_texts = _;
    arg = order_arg roaring fields;
    calc_lem = λ u v. refl;
    arg_int = λ n. refl;
    arg_double = λ d. refl;
    arg_other = refl;
  }
