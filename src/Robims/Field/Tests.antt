-- ===== src/Robims/Field/Tests.antt =====
-- The fields and the id mapping of robims on concrete inputs.
use myctk.Base.{ℕ, ◌≡◌, Bool, true, false, List, [], ◌∷◌, some, arith}
use myctk.Base.Int.{pos}
use myctk.Base.Name.{Name, find}
use myctk.Robims.Bitmap.Flags.{flags}
use myctk.Robims.Bsi.Typed.{int_get}
use myctk.Robims.Tests.{count_up, count_up-IsWellFormed}
use myctk.Robims.IdMapping.{find_id, SimpleIdMapping, empty_mapping, get_local_id, get_id}
use myctk.Robims.IdMapping.RoundTrip.{IsMapping, get_id-get_local_id}
use myctk.Robims.Field.{SetField, int_field_remove}
use myctk.Robims.Field.Exact.{int_get-int_field_remove}

empty_mapping-IsMapping : IsMapping empty_mapping
unfolding find find_id
empty_mapping-IsMapping = record { inverse = λ id k. (λ e. cc, λ e. cc); below = λ k id e. cc }

get_id-get_local_id_example :
    (k : ℕ) × (m : SimpleIdMapping) × (get_local_id empty_mapping (b'a' ∷ []) true ≡ some (k, m))
    × IsMapping m
    × (get_id m k ≡ some (b'a' ∷ []))
    × ((j : ℕ) (other : Name) → get_id empty_mapping j ≡ some other → get_id m j ≡ some other)
    × (get_local_id m (b'a' ∷ []) false ≡ some (k, m))
get_id-get_local_id_example =
    get_id-get_local_id empty_mapping (b'a' ∷ []) empty_mapping-IsMapping (omega arith)

-- ids 0 to 2, of which 1 is true
abbrev table : List Bool
table = true ∷ true ∷ true ∷ []

abbrev marked : List Bool
marked = false ∷ true ∷ []

abbrev colours : SetField flags
colours = (b'r' ∷ [], false ∷ true ∷ []) ∷ []

int_get-int_field_remove_example :
    int_get flags (int_field_remove flags count_up 5 (pos 0)) 5 ≡ int_get flags count_up 5
int_get-int_field_remove_example =
    int_get-int_field_remove flags count_up 5 5 (pos 0) count_up-IsWellFormed
