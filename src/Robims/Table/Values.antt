-- ===== src/Robims/Table/Values.antt =====
-- What a set or mutex field of a table selects after Put (robims/robims_table.cpp).
use myctk.Base.{
  ℕ, ◌≡◌, ◌⊎◌, refl, ap, sym, ◌∙◌, Bool, false, not, ◌&&◌, ◌||◌, List, [], ◌∷◌, none, some, ◌==◌,
  if◌then◌else◌, arith, Option-cases, Bool-cases, inl, inr,
}
use myctk.Base.Name.{Name, ◌=s◌, find}
use myctk.Robims.Bitmap.{RoaringBitmap}
use myctk.Robims.Field.{
  field_op_eq, string_arg, SetField, found_or_new, set_put, set_remove, set_select,
}
use myctk.Robims.Field.Exact.{
  is_selected, is_selected-select_found, set_select-set_put, find-set_remove,
}
use myctk.Robims.Table.{
  Json, TableField, set_field, mutex_field, weight_set_field, int_field, float_field, bool_field,
  Ended, done, failed, thrown, open_ended, field_select,
}
use myctk.Robims.Table.Put.{put_strings, ended_if, put_value, put_missing, put_field}

unfoldable pub among : Name → List Name → Bool
among str [] = false
among str (v ∷ vs) = str =s v || among str vs

module _ (roaring : RoaringBitmap) where
  open roaring use {contains, create, contains-create}

  -- whether the ids of a value hold x
  unfoldable holds : SetField roaring → Name → ℕ → Bool
  holds b str x = contains (found_or_new roaring (find str b)) x

  set_select-holds :
      (Double : Type 0) (table : roaring.Bitmap) (b : SetField roaring) (str : Name) (x : ℕ)
      → is_selected roaring
          (set_select roaring {Double = Double} table b field_op_eq (string_arg str))
          x
        ≡ holds b str x
  unfolding holds set_select
  set_select-holds Double table b str x = is_selected-select_found roaring table (find str b) x

  holds-set_put :
      (b : SetField roaring) (id x : ℕ) (val str : Name)
      → holds (set_put roaring b id val) str x ≡ ((str =s val) && x == id || holds b str x)
  holds-set_put b id x val str =
      sym (set_select-holds ℕ create (set_put roaring b id val) str x)
      ∙ set_select-set_put roaring ℕ create b id x val str
      ∙ ap (λ h. (str =s val) && x == id || h) (set_select-holds ℕ create b str x)

  holds-set_remove :
      (b : SetField roaring) (id x : ℕ) (str : Name)
      → holds (set_remove roaring b id) str x ≡ (not (x == id) && holds b str x)
  unfolding holds
  holds-set_remove b id x str = find-set_remove roaring b id x str

  module _ (json : Json) where
    open json use {
      Document, Result, Double, iterate, find_field_unordered, is_error, get_string, get_array,
    }

    -- the strings of an array, up to the first element that is none
    unfoldable pub strings : List Result → List Name
    strings [] = []
    strings (f ∷ rest) = elim (get_string f) [ none ↦ [] | some val ↦ val ∷ strings rest ]

    -- the values that the document has for a field
    unfoldable pub given : Result → TableField roaring → List Name
    unfolding strings
    given r (set_field b) = elim (get_array r) [ none ↦ [] | some array ↦ strings array ]
    given r (mutex_field b) = elim (get_string r) [ none ↦ [] | some val ↦ val ∷ [] ]
    given r (weight_set_field limit b) = []
    given r (int_field s) = []
    given r (float_field s) = []
    given r (bool_field b) = []

    holds-put_strings :
        (b : SetField roaring) (id x : ℕ) (array : List Result) (str : Name)
        → holds (put_strings roaring json b id array).1 str x
          ≡ (x == id && among str (strings array) || holds b str x)
    unfolding put_strings strings among
    holds-put_strings b id x [] str = ground arith
    holds-put_strings b id x (f ∷ rest) str = elim (Option-cases (get_string f)) [
      | inl e ↦ rw (e, put_strings) (ground arith)
      | inr (val, e) ↦
          let more = holds-put_strings (set_put roaring b id val) id x rest str in
          let now = holds-set_put b id x val str in rw (e, put_strings) (ground arith)
    ]

    -- what EQ with a string selects in a field that was put, and `otherwise` where that failed
    unfoldable selects_after :
        roaring.Bitmap → Ended roaring (TableField roaring) → Name → ℕ → Bool → Bool
    selects_after table (done f) str x otherwise =
        is_selected roaring (field_select roaring json table f field_op_eq (string_arg str)) x
    selects_after table (failed f) str x otherwise = otherwise
    selects_after table thrown str x otherwise = otherwise
    selects_after table open_ended str x otherwise = otherwise

    -- what EQ with a string selects in a field
    unfoldable pub eq_string : roaring.Bitmap → TableField roaring → Name → ℕ → Bool
    eq_string table f str x =
        is_selected roaring (field_select roaring json table f field_op_eq (string_arg str)) x

    put_set-selects :
        (table : roaring.Bitmap) (id x : ℕ) (r : Result) (array : List Result)
        (b : SetField roaring) (str : Name)
        → get_array r ≡ some array
        → (let asked = if x == id then among str (strings array) else holds b str x in
            selects_after table (put_value roaring json id r (set_field b)) str x asked ≡ asked)
    unfolding put_value selects_after field_select ended_if
    put_set-selects table id x r array b str e =
        let start = set_remove roaring b id in
        let (ok, b') = put_strings roaring json start id array in
        let more = holds-put_strings start id x array str in
        let gone = holds-set_remove b id x str in
        let seen = set_select-holds Double table b' str x in
        let now : holds b' str x ≡ (if x == id then among str (strings array) else holds b str x) =
          ground arith in
        elim (Bool-cases ok) [
          | inl is_ok ↦ rw (e, put_value, is_ok) (seen ∙ now)
          | inr not_ok ↦ rw (e, put_value, not_ok) refl
        ]

    put_mutex-selects :
        (table : roaring.Bitmap) (id x : ℕ) (r : Result) (val : Name) (b : SetField roaring)
        (str : Name)
        → get_string r ≡ some val
        → (let asked = if x == id then among str (val ∷ []) else holds b str x in
            selects_after table (put_value roaring json id r (mutex_field b)) str x asked ≡ asked)
    unfolding put_value selects_after field_select among
    put_mutex-selects table id x r val b str e =
        let start = set_remove roaring b id in
        let put_it = holds-set_put start id x val str in
        let gone = holds-set_remove b id x str in
        let seen = set_select-holds Double table (set_put roaring start id val) str x in
        let now : holds (set_put roaring start id val) str x
            ≡ (if x == id then among str (val ∷ []) else holds b str x) =
          ground arith in
        rw (e, put_value) (seen ∙ now)

    -- what EQ selects in a field after Put, by the table before
    unfoldable pub row_of : roaring.Bitmap → ℕ → Result → TableField roaring → Name → ℕ → Bool
    row_of table id r f str x =
        if x == id && not (is_error r) then among str (given r f) else eq_string table f str x

    put_value-selects :
        (table : roaring.Bitmap) (id x : ℕ) (r : Result) (f : TableField roaring)
        (b : SetField roaring) (str : Name)
        → ((f ≡ set_field b) ⊎ (f ≡ mutex_field b))
        → (let asked = if x == id then among str (given r f) else holds b str x in
            selects_after table (put_value roaring json id r f) str x asked ≡ asked)
    unfolding given selects_after put_value
    put_value-selects table id x r f b str (inl is_set) =
        rw is_set (elim (Option-cases (get_array r)) [
          | inl e ↦ rw (e, put_value, given) refl
          | inr (array, e) ↦ rw (e, given) (put_set-selects table id x r array b str e)
        ])
    put_value-selects table id x r f b str (inr is_mutex) =
        rw is_mutex (elim (Option-cases (get_string r)) [
          | inl e ↦ rw (e, put_value, given) refl
          | inr (val, e) ↦ rw (e, given) (put_mutex-selects table id x r val b str e)
        ])

    eq_string-holds :
        (table : roaring.Bitmap) (f : TableField roaring) (b : SetField roaring) (str : Name)
        (x : ℕ)
        → ((f ≡ set_field b) ⊎ (f ≡ mutex_field b))
        → eq_string table f str x ≡ holds b str x
    unfolding eq_string field_select
    eq_string-holds table f b str x (inl is_set) = rw is_set (set_select-holds Double table b str x)
    eq_string-holds table f b str x (inr is_mutex) =
        rw is_mutex (set_select-holds Double table b str x)

    put_missing-kept :
        (id : ℕ) (f : TableField roaring) (b : SetField roaring)
        → ((f ≡ set_field b) ⊎ (f ≡ mutex_field b))
        → put_missing roaring json id f ≡ f
    unfolding put_missing
    put_missing-kept id f b (inl is_set) = rw is_set refl
    put_missing-kept id f b (inr is_mutex) = rw is_mutex refl

    pub put_field-selects :
        (table old : roaring.Bitmap) (id x : ℕ) (r : Result) (f f' : TableField roaring)
        (b : SetField roaring) (str : Name)
        → ((f ≡ set_field b) ⊎ (f ≡ mutex_field b))
        → put_field roaring json id r f ≡ done f'
        → eq_string table f' str x ≡ row_of old id r f str x
    unfolding row_of put_field selects_after eq_string
    put_field-selects table old id x r f f' b str kind e =
        let before = eq_string-holds old f b str x kind in
        elim (Bool-cases (is_error r)) [
          | inl err ↦
              let put_it : done (put_missing roaring json id f) ≡ done f' =
                rw (err, put_field) at e in
              let same : f' ≡ f = sym (cc put_it) ∙ put_missing-kept id f b kind in
              let now : eq_string table f str x ≡ eq_string old f str x =
                eq_string-holds table f b str x kind ∙ sym before in
              rw (err, same) (ground arith)
          | inr fine ↦
              let put_it : put_value roaring json id r f ≡ done f' = rw (fine, put_field) at e in
              let asked = if x == id then among str (given r f) else holds b str x in
              let valued : selects_after table (put_value roaring json id r f) str x asked ≡ asked =
                put_value-selects table id x r f b str kind in
              let after : eq_string table f' str x ≡ asked = rw put_it at valued in
              rw fine (ground arith)
        ]
