-- ===== src/Robims/Table/Tests.antt =====
-- A table with a mutex field and a set field, and a document of one row (robims/robims_table.cpp).
use myctk.Base.{
  ℕ, ◌≡◌, ◌==◌, refl, Bool, true, false, List, [], ◌∷◌, Option, none, some, inr, if◌then◌else◌,
}
use myctk.Base.Int.{pos}
use myctk.Base.Name.{Name, ◌=s◌, find, assign}
use myctk.Robims.Bitmap.Flags.{flags}
use myctk.Robims.Field.{
  SetField, set_put, set_remove, bool_put, field_op_eq, field_op_neq, string_arg,
}
use myctk.Robims.Field.Exact.{is_selected}
use myctk.Robims.IdMapping.{SimpleIdMapping, get_local_id}
use myctk.Robims.Table.{
  Json, set_field, mutex_field, bool_field, RobimsTable, done, remove_row, table_select,
  table_local_id,
}
use myctk.Robims.Table.Put.{table_put}
use myctk.Robims.Table.Values.{among, given}
use myctk.Robims.Table.Rows.{table_put-selects}
use myctk.Robims.Table.Stays.{remove_row-stays}

data JsonValue : Type 0 where
  missing : JsonValue
  word : Name → JsonValue
  words : List Name → JsonValue
  flag : Bool → JsonValue

abbrev each_word : List Name → List JsonValue
each_word [] = []
each_word (n ∷ ns) = word n ∷ each_word ns

abbrev or_missing : Option JsonValue → JsonValue
or_missing none = missing
or_missing (some v) = v

abbrev get_word : JsonValue → Option Name
get_word (word n) = some n
get_word missing = none
get_word (words ns) = none
get_word (flag b) = none

abbrev get_words : JsonValue → Option (List JsonValue)
get_words (words ns) = some (each_word ns)
get_words missing = none
get_words (word n) = none
get_words (flag b) = none

abbrev get_flag : JsonValue → Option Bool
get_flag (flag b) = some b
get_flag missing = none
get_flag (word n) = none
get_flag (words ns) = none

abbrev is_missing : JsonValue → Bool
is_missing missing = true
is_missing (word n) = false
is_missing (words ns) = false
is_missing (flag b) = false

abbrev document : List (Name × JsonValue)
document =
    (b'i' ∷ [], word (b'u' ∷ []))
    ∷ (b'k' ∷ [], word (b'y' ∷ []))
    ∷ (b't' ∷ [], words ((b'p' ∷ []) ∷ (b'q' ∷ []) ∷ []))
    ∷ []

-- every text but the empty one is the document `row`
abbrev parsed : Name → Option (List (Name × JsonValue))
parsed [] = none
parsed (c ∷ cs) = some document

abbrev json : Json
json = record {
  Document = List (Name × JsonValue);
  Result = JsonValue;
  Double = ℕ;
  casts = record { float_of_double = λ d. d; float_of_int = λ i. 0 };
  iterate = parsed;
  find_field = λ doc n. or_missing (find n doc);
  find_field_unordered = λ doc n. or_missing (find n doc);
  is_null = λ v. false;
  is_error = is_missing;
  raw_json_token = λ v. [];
  get_string = get_word;
  get_int64 = λ v. none;
  get_double = λ v. none;
  get_bool = get_flag;
  get_array = get_words;
  get_object = λ v. none;
}

abbrev known : SimpleIdMapping
known = record {
  real_local_mapping = (b'u' ∷ [], 0) ∷ [];
  local_real_mapping = (0, b'u' ∷ []) ∷ [];
  id_seed = 1;
}

abbrev kinds : SetField flags
kinds = (b'x' ∷ [], true ∷ true ∷ []) ∷ []

abbrev table : RobimsTable flags
table = record {
  id_field = b'i' ∷ [];
  disable_local_id_creation = true;
  fields =
      (b'k' ∷ [], mutex_field kinds)
      ∷ (b't' ∷ [], set_field [])
      ∷ (b'b' ∷ [], bool_field (true ∷ []))
      ∷ [];
  id_bitmap = true ∷ true ∷ [];
}

-- the row's id 0 goes from the kind x to y
abbrev after : RobimsTable flags
after = record table {
  fields =
      (b'k' ∷ [], mutex_field ((b'x' ∷ [], false ∷ true ∷ []) ∷ (b'y' ∷ [], true ∷ []) ∷ []))
      ∷ (b't' ∷ [], set_field ((b'p' ∷ [], true ∷ []) ∷ (b'q' ∷ [], true ∷ []) ∷ []))
      ∷ (b'b' ∷ [], bool_field (false ∷ []))
      ∷ [];
}

table_local_id-document : table_local_id flags json table document known ≡ some (0, known)
unfolding table_local_id get_local_id find ◌=s◌
table_local_id-document = refl

table_put-after : table_put flags json table known (b'r' ∷ []) ≡ done (after, known)
unfolding table_put get_local_id find assign ◌=s◌ set_put set_remove bool_put
table_put-after = refl

table_put-selects_example :
    is_selected flags
      (table_select flags json after (b'k' ∷ []) field_op_eq (string_arg (b'x' ∷ [])))
      0
    ≡ false
unfolding among given find ◌=s◌
table_put-selects_example =
    table_put-selects flags json table after known known known (b'r' ∷ []) (b'k' ∷ []) (b'x' ∷ [])
      document 0 0 (mutex_field kinds) kinds refl table_local_id-document table_put-after refl
      (inr refl)

remove_row-stays_example :
    (t' : RobimsTable flags) × ((remove_row flags json table known (b'r' ∷ []) (λ n. (pos 0, 0))
        ≡ done (t', known))
      × ((x : ℕ)
          → is_selected flags
              (table_select flags json t' (b'k' ∷ []) field_op_neq (string_arg (b'x' ∷ [])))
              x
            ≡ (if x == 0
                then flags.contains table.id_bitmap x
                else is_selected flags
                    (table_select flags json table
                      (b'k' ∷ [])
                      field_op_neq
                      (string_arg (b'x' ∷ [])))
                    x)))
unfolding find ◌=s◌
remove_row-stays_example =
    remove_row-stays flags json table known known (b'r' ∷ []) (b'k' ∷ []) (b'x' ∷ []) document 0
      (λ n. (pos 0, 0)) (mutex_field kinds) kinds (true ∷ true ∷ []) refl table_local_id-document
      refl (inr refl) refl
