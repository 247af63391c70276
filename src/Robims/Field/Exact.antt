-- ===== src/Robims/Field/Exact.antt =====
-- What the fields select after a change.
use myctk.Base.{
  ℕ, ◌≡◌, refl, ap, sym, ◌∙◌, Bool, true, false, not, ◌&&◌, ◌||◌, [], ◌∷◌, Option, none, some, ◌==◌,
  ==_iff, if◌then◌else◌, arith, Option-cases, Bool-cases, inl, inr,
}
use myctk.Base.Int.{ℤ}
use myctk.Base.Name.{Name, ◌=s◌, =s_iff, find, assign, find-assign}
use myctk.Robims.Bitmap.{RoaringBitmap}
use myctk.Robims.Bsi.Index.{BitSliceIndex, IsWellFormed, do_get, do_remove}
use myctk.Robims.Bsi.Index.Stored.{do_get-do_remove, options-do_remove}
use myctk.Robims.Bsi.Options.{to_local_val_int, get_actual_int_val}
use myctk.Robims.Bsi.Typed.{int_get, int_remove}
use myctk.Robims.Field.{
  field_op_eq, string_arg, int_arg, Selection, selected, not_found, invalid_args, invalid_operator,
  equals, bool_put, bool_select, SetField, found_or_new, set_put, set_remove, select_found,
  set_select, int_field_remove,
}

module _ (roaring : RoaringBitmap) where
  open roaring use {
    Bitmap, contains, create, bitmap_andnot, add, remove, contains-create, contains-andnot,
    contains-add, contains-remove,
  }

  -- the ids selected; an error selects none
  unfoldable pub is_selected : Selection Bitmap → ℕ → Bool
  is_selected (selected b) x = contains b x
  is_selected not_found x = false
  is_selected invalid_args x = false
  is_selected invalid_operator x = false

  -- After Put of an id of the table into a bool field, where it counts as true exactly if the value
  -- is 1, EQ and NEQ with an int treat the id so (0 asks for false, any other int for true), and any
  -- other id as before.
  pub bool_select-bool_put :
      (Double : Type 0) (table bitmap : Bitmap) (id x : ℕ) (val iv : ℤ)
      → contains table id ≡ true
      → (is_selected
            (bool_select roaring {Double = Double} table
              (bool_put roaring bitmap id val)
              field_op_eq
              (int_arg iv))
            x
          ≡ (if x == id
              then (if equals iv 0 then not (equals val 1) else equals val 1)
              else is_selected
                  (bool_select roaring {Double = Double} table bitmap field_op_eq (int_arg iv))
                  x))
  unfolding bool_select bool_put is_selected equals
  bool_select-bool_put Double table bitmap id x val iv there =
      let rest = remove bitmap id in
      let out = contains-remove bitmap id x in
      let back = contains-add rest id x in
      let minus = contains-andnot table in
      elim (Bool-cases (x == id)) [
        | inl same ↦
            let here : contains table x ≡ true =
              ap (contains table) ((==_iff x id).0 same) ∙ there in
            ground (arith, out, back, minus (add rest id) x, minus rest x)
        | inr other ↦ ground (arith, out, back, minus (add rest id) x, minus rest x, minus bitmap x)
      ]

  int_get-local :
      (s t : BitSliceIndex roaring) (x : ℕ)
      → do_get roaring t x ≡ do_get roaring s x
      → t.options ≡ s.options
      → int_get roaring t x ≡ int_get roaring s x
  unfolding int_get
  int_get-local s t x same options = elim (Option-cases (do_get roaring s x)) [
    | inl e ↦ let e' : do_get roaring t x ≡ none = same ∙ e in rw (e, e', int_get) refl
    | inr (v, e) ↦
        let e' : do_get roaring t x ≡ some v = same ∙ e in
        rw (e, e', int_get) (ap (λ o. some (get_actual_int_val o v)) options)
  ]

  -- RobimsIntField::Remove changes no value that Get gives, that of the id itself included.
  pub int_get-int_field_remove :
      (s : BitSliceIndex roaring) (id x : ℕ) (unset : ℤ)
      → IsWellFormed roaring s
      → int_get roaring (int_field_remove roaring s id unset) x ≡ int_get roaring s x
  unfolding int_get int_field_remove int_remove
  int_get-int_field_remove s id x unset w = elim (Option-cases (do_get roaring s id)) [
    | inr (v, e) ↦ rw (e, int_field_remove) refl
    | inl e ↦
        let local = to_local_val_int s.options unset in
        let after = (do_get-do_remove roaring s id local x w).1 in
        let same : do_get roaring (do_remove roaring s id local) x ≡ do_get roaring s x =
          elim (Bool-cases (x == id)) [
            | inl here ↦
                let t : do_get roaring s x ≡ none =
                  ap (do_get roaring s) ((==_iff x id).0 here) ∙ e in
                ground arith
            | inr away ↦ ground arith
          ] in
        rw (e, int_field_remove)
          (int_get-local s (do_remove roaring s id local) x same
            (options-do_remove roaring s id local))
  ]

  pub is_selected-select_found :
      (table : Bitmap) (found : Option Bitmap) (x : ℕ)
      → is_selected (select_found roaring table true found) x
        ≡ contains (found_or_new roaring found) x
  unfolding is_selected select_found found_or_new
  is_selected-select_found table none x = sym (contains-create x)
  is_selected-select_found table (some b) x = refl

  -- A set field keeps for each value the ids that were given it: after Put of a value for an id, EQ
  -- with that value selects the id and those that it selected before, and EQ with another value
  -- selects what it selected before.
  pub set_select-set_put :
      (Double : Type 0) (table : Bitmap) (bitmaps : SetField roaring) (id x : ℕ) (val str : Name)
      → is_selected
          (set_select roaring {Double = Double} table
            (set_put roaring bitmaps id val)
            field_op_eq
            (string_arg str))
          x
        ≡ ((str =s val) && x == id
            || is_selected
                (set_select roaring {Double = Double} table bitmaps field_op_eq (string_arg str))
                x)
  unfolding set_select set_put found_or_new
  set_select-set_put Double table bitmaps id x val str =
      let b = found_or_new roaring (find val bitmaps) in
      let looked = find-assign val str (add b id) bitmaps in
      let now = is_selected-select_found table (find str (set_put roaring bitmaps id val)) x in
      let before = is_selected-select_found table (find str bitmaps) x in
      let seen = λ (o : Option Bitmap). contains (found_or_new roaring o) x in
      elim (Bool-cases (str =s val)) [
        | inl same ↦
            let e : str ≡ val = (=s_iff str val).0 same in
            let old : contains b x ≡ seen (find str bitmaps) =
              ap (λ n. seen (find n bitmaps)) (sym e) in
            let stored : find str (assign val (add b id) bitmaps) ≡ some (add b id) =
              rw same at looked in
            now
            ∙ ap seen stored
            ∙ contains-add b id x
            ∙ rw same (ap (λ t. x == id || t) (old ∙ sym before))
        | inr other ↦
            let kept : find str (assign val (add b id) bitmaps) ≡ find str bitmaps =
              rw other at looked in
            now ∙ ap seen kept ∙ sym before ∙ rw other refl
      ]

  pub find-set_remove :
      (bitmaps : SetField roaring) (id x : ℕ) (str : Name)
      → contains (found_or_new roaring (find str (set_remove roaring bitmaps id))) x
        ≡ (not (x == id) && contains (found_or_new roaring (find str bitmaps)) x)
  unfolding set_remove found_or_new find
  find-set_remove [] id x str = ground (arith, contains-create x)
  find-set_remove ((name, b) ∷ bitmaps) id x str = elim (Bool-cases (str =s name)) [
    | inl same ↦ rw same (contains-remove b id x)
    | inr other ↦ rw other (find-set_remove bitmaps id x str)
  ]

  -- After Remove of an id from a set field EQ selects what it selected before, but not that id.
  pub set_select-set_remove :
      (Double : Type 0) (table : Bitmap) (bitmaps : SetField roaring) (id x : ℕ) (str : Name)
      → is_selected
          (set_select roaring {Double = Double} table
            (set_remove roaring bitmaps id)
            field_op_eq
            (string_arg str))
          x
        ≡ (not (x == id)
            && is_selected
                (set_select roaring {Double = Double} table bitmaps field_op_eq (string_arg str))
                x)
  unfolding set_select
  set_select-set_remove Double table bitmaps id x str =
      let now = is_selected-select_found table (find str (set_remove roaring bitmaps id)) x in
      let before = is_selected-select_found table (find str bitmaps) x in
      now ∙ find-set_remove bitmaps id x str ∙ ap (λ t. not (x == id) && t) (sym before)
