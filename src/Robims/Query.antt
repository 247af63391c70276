-- ===== src/Robims/Query.antt =====
-- Queries (robims/robims_query.cpp, robims_query.h): the tree of a parsed query and the values that
-- its evaluation gives. Doubles and the fields are parameters. An error's reason is left out, and its code is a constructor.
use myctk.Base.{Bool, List, Option}
use myctk.Base.Int.{ℤ}
use myctk.Base.Name.{Name}
use myctk.Robims.Bitmap.{RoaringBitmap}
use myctk.Robims.Field.{FieldOperator, FieldArg, Selection}
pub mod Numbers
pub mod Calc
pub mod Evaluate
pub mod Init
pub mod Types
pub mod Errors
pub mod Stored
mod Tests

-- what the code does with doubles
pub record Doubles : Type 1 where
  pub Double : Type 0
  pub plus : Double → Double → Double
  pub minus : Double → Double → Double
  pub times : Double → Double → Double
  pub divided : Double → Double → Double
  pub equal : Double → Double → Bool
  pub below : Double → Double → Bool
  pub at_most : Double → Double → Bool
  pub of_int : ℤ → Double

-- the fields that a query can name: a `RobimsField*`, and its Select
pub record Fields (roaring : RoaringBitmap) : Type 1 where
  pub doubles : Doubles
  pub Field : Type 0
  pub select : Field → FieldOperator → FieldArg doubles.Double → Selection roaring.Bitmap

pub data Optoken : Type 0 where
  op_plus op_minus op_times op_divide op_positive op_negative : Optoken
  op_equal op_not_equal op_less op_less_equal op_greater op_greater_equal : Optoken
  op_and op_or op_and_not : Optoken

-- the codes of RobimsQueryError; the last three are those that Select returns
pub data QueryErrorCode : Type 0 where
  unknown_error query_invalid_operator query_invalid_operand empty_field_instance : QueryErrorCode
  nil_interpreter field_not_found field_invalid_args field_invalid_operator : QueryErrorCode

-- RobimsQueryValue
pub data QueryValue (Double F Bitmap : Type 0) : Type 0 where
  error : QueryErrorCode → QueryValue Double F Bitmap
  bool : Bool → QueryValue Double F Bitmap
  int : ℤ → QueryValue Double F Bitmap
  double : Double → QueryValue Double F Bitmap
  string : Name → QueryValue Double F Bitmap
  field : F → QueryValue Double F Bitmap
  bitmap : Bitmap → QueryValue Double F Bitmap

-- a value that the arithmetic and the comparisons of QueryCalc take as it is
pub data Scalar (Double : Type 0) : Type 0 where
  whole : ℤ → Scalar Double
  real : Double → Scalar Double
  text : Name → Scalar Double
  other : Scalar Double

-- a Variable's field is `none` where the pointer is null
mutual
  pub data Operand (Double F : Type 0) : Type 0 where
    nil : Operand Double F
    int_literal : ℤ → Operand Double F
    double_literal : Double → Operand Double F
    bool_literal : Bool → Operand Double F
    string_literal : Name → Operand Double F
    variable : List Name → Option F → Operand Double F
    dynamic_variable : List Name → Operand Double F
    func_call : Name → Arguments Double F → Operand Double F
    unary : Optoken → Operand Double F → Operand Double F
    cond_expr : Operand Double F → Operand Double F → Operand Double F → Operand Double F
    expression : Operand Double F → Operations Double F → Operand Double F

  pub data Arguments (Double F : Type 0) : Type 0 where
    no_arguments : Arguments Double F
    argument : Operand Double F → Arguments Double F → Arguments Double F

  pub data Operations (Double F : Type 0) : Type 0 where
    end : Operations Double F
    operation : Optoken → Operand Double F → Operations Double F → Operations Double F
