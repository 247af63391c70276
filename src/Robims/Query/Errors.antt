-- ===== src/Robims/Query/Errors.antt =====
-- What becomes of errors in a query (robims/robims_query.cpp).
use myctk.Base.{◌≡◌, ◌⊎◌, Option, none, some}
use myctk.Robims.Bitmap.{RoaringBitmap}
use myctk.Robims.Query.{
  Fields, QueryErrorCode, unknown_error, query_invalid_operator, query_invalid_operand, error,
}
use myctk.Robims.Query.Calc.{Value}
use myctk.Robims.Query.Types.Comparison.{Comparison}

-- the codes that QueryCalc gives an error of its own
abbrev pub IsCalcCode : QueryErrorCode → Type 0
IsCalcCode c = (c ≡ unknown_error) ⊎ ((c ≡ query_invalid_operand) ⊎ (c ≡ query_invalid_operator))

module _ (roaring : RoaringBitmap) (fields : Fields roaring) where
  open fields use {doubles, Field}
  open doubles use {Double}

  abbrev pub IsCalcError : Option (Value roaring fields) → Type 0
  IsCalcError o = (c : QueryErrorCode) × (o ≡ some (error c)) × IsCalcCode c

  -- undefined behaviour, or an error with a code of QueryCalc
  abbrev pub IsLost : Option (Value roaring fields) → Type 0
  IsLost o = (o ≡ none) ⊎ IsCalcError o

  -- the two values of an operation, of which one is an error
  abbrev pub OneError : Value roaring fields → Value roaring fields → Type 0
  OneError u v = ((c : QueryErrorCode) × (u ≡ error c)) ⊎ ((c : QueryErrorCode) × (v ≡ error c))
