-- ===== src/Didagle/Fill.antt =====
-- Vertex::FillInputOutput (didagle/graph_vertex.cpp). What the factory of processors knows of a name
-- is an argument.
use myctk.Base.{Bool, true, false, ◌||◌, List, [], ◌∷◌, Option, none, some, if◌then◌else◌}
use myctk.Base.Name.{Name, ◌=s◌, is_nil}
use myctk.Didagle.Vertex.{GraphData, Vertex}

-- what a FieldInfo of GetInputIds says
pub record InputId : Type 0 where
  pub name : Name
  pub is_extern : Bool
  pub is_in_out : Bool

pub record ProcessorIds : Type 0 where
  pub input_ids : List InputId
  pub output_ids : List Name

abbrev pub empty_data : GraphData
empty_data = record {
  id = [];
  field = [];
  move_from_when_skipped = [];
  aggregate = [];
  required = false;
  move = false;
  is_extern = false;
  is_in_out = false;
}

-- the first input of the field is marked, or one is added
unfoldable pub fill_input : InputId → List GraphData → List GraphData
fill_input i [] =
    record empty_data {
      id = i.name;
      field = i.name;
      is_extern = i.is_extern;
      is_in_out = i.is_in_out;
      move = i.is_in_out;
    }
    ∷ []
fill_input i (d ∷ ds) =
    if d.field =s i.name
    then (if i.is_in_out
        then record d { move = true; is_in_out = true; is_extern = i.is_extern || d.is_extern }
        else d)
      ∷ ds
    else d ∷ fill_input i ds

unfoldable pub fill_output : Name → List GraphData → List GraphData
fill_output o [] = record empty_data { id = o; field = o } ∷ []
fill_output o (d ∷ ds) = if d.field =s o then d ∷ ds else d ∷ fill_output o ds

unfoldable pub fill_all {ℓ} :
    {A : Type ℓ} → (A → List GraphData → List GraphData) → List A → List GraphData → List GraphData
fill_all fill [] ds = ds
fill_all fill (a ∷ rest) ds = fill_all fill rest (fill a ds)

-- Vertex::FillInputOutput; `none` is -1
unfoldable pub fill_input_output : (Name → Option ProcessorIds) → Vertex → Option Vertex
unfolding fill_input fill_output fill_all
fill_input_output processors v =
    if is_nil v.processor then some v else elim (processors v.processor) [
      | none ↦ none
      | some p ↦ some (record v {
        input = fill_all fill_input p.input_ids v.input;
        output = fill_all fill_output p.output_ids v.output;
      })
    ]
