-- ===== src/Robims/IdMapping.antt =====
-- SimpleIDMapping (robims/robims_simple_id_mapping.h, robims_simple_id_mapping.cpp): the local ids of
-- the ids that users give. An IDPair is its local id, since its string is the key.
pub mod RoundTrip
use myctk.Base.{
  ℕ, ◌+◌, ◌%◌, ◌^◌, Bool, true, false, List, [], ◌∷◌, Option, none, some, ◌==◌, if◌then◌else◌,
}
use myctk.Base.Name.{Name, find, assign}

-- the hash map from local ids
unfoldable pub find_id : ℕ → List (ℕ × Name) → Option Name
find_id k [] = none
find_id k ((j, id) ∷ m) = if k == j then some id else find_id k m

unfoldable pub assign_id : ℕ → Name → List (ℕ × Name) → List (ℕ × Name)
assign_id k id [] = (k, id) ∷ []
assign_id k id ((j, old) ∷ m) = if k == j then (j, id) ∷ m else (j, old) ∷ assign_id k id m

pub record SimpleIdMapping : Type 0 where
  pub real_local_mapping : List (Name × ℕ)
  pub local_real_mapping : List (ℕ × Name)
  pub id_seed : ℕ

abbrev pub empty_mapping : SimpleIdMapping
empty_mapping = record { real_local_mapping = []; local_real_mapping = []; id_seed = 0 }

-- GetLocalID; `none` is -1
unfoldable pub get_local_id : SimpleIdMapping → Name → Bool → Option (ℕ × SimpleIdMapping)
unfolding assign_id
get_local_id m id create_ifnotexist = elim (find id m.real_local_mapping) [
  | some local_id ↦ some (local_id, m)
  | none ↦
      if create_ifnotexist
      then some (
        m.id_seed,
        record {
          real_local_mapping = assign id m.id_seed m.real_local_mapping;
          local_real_mapping = assign_id m.id_seed id m.local_real_mapping;
          id_seed = (m.id_seed + 1) % 2 ^ 32;
        },
      )
      else none
]

-- GetID
unfoldable pub get_id : SimpleIdMapping → ℕ → Option Name
unfolding find_id
get_id m local_id = find_id local_id m.local_real_mapping
