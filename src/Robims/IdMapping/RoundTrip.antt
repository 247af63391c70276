-- ===== src/Robims/IdMapping/RoundTrip.antt =====
-- Local ids and ids stand for each other.
use myctk.Base.{
  ℕ, ◌+◌, ◌%◌, ◌^◌, ◌<◌, ◌≡◌, ◌↔◌, refl, Bool, true, false, List, [], ◌∷◌, none, some, ◌==◌, ==_iff,
  ==_refl, if◌then◌else◌, arith, Option-cases, inl, inr,
}
use myctk.Base.Name.{Name, =s_iff, find, assign, find-assign}
use myctk.Robims.IdMapping.{find_id, assign_id, SimpleIdMapping, get_local_id, get_id}

find_id-assign_id :
    (k j : ℕ) (v : Name) (m : List (ℕ × Name))
    → find_id j (assign_id k v m) ≡ (if j == k then some v else find_id j m)
unfolding find_id assign_id
find_id-assign_id k j v [] = refl
find_id-assign_id k j v ((i, w) ∷ m) =
    ground (arith, find_id-assign_id k j v m, ==_iff j k, ==_iff k i, ==_iff j i)

-- the two tables are inverse, and the ids in use are below the seed
pub record IsMapping (m : SimpleIdMapping) : Type 0 where
  pub inverse :
      (id : Name) (k : ℕ)
      → (find id m.real_local_mapping ≡ some k) ↔ (find_id k m.local_real_mapping ≡ some id)
  pub below : (k : ℕ) (id : Name) → find_id k m.local_real_mapping ≡ some id → k < m.id_seed

grown : SimpleIdMapping → Name → SimpleIdMapping
grown m id = record {
  real_local_mapping = assign id m.id_seed m.real_local_mapping;
  local_real_mapping = assign_id m.id_seed id m.local_real_mapping;
  id_seed = m.id_seed + 1;
}

unused : (m : SimpleIdMapping) → IsMapping m → find_id m.id_seed m.local_real_mapping ≡ none
unused m h = elim (Option-cases (find_id m.id_seed m.local_real_mapping)) [
  | inl e ↦ e
  | inr (id, e) ↦ let lt : m.id_seed < m.id_seed = h.below m.id_seed id e in absurd (omega arith)
]

grown-IsMapping :
    (m : SimpleIdMapping) (id : Name)
    → IsMapping m
    → find id m.real_local_mapping ≡ none
    → IsMapping (grown m id)
unfolding grown
grown-IsMapping m id h new = record {
  inverse = λ j k. ground (
    arith,
    find-assign id j m.id_seed m.real_local_mapping,
    find_id-assign_id m.id_seed k id m.local_real_mapping,
    h.inverse j k,
    unused m h,
    =s_iff j id,
    ==_iff k m.id_seed,
  );
  below = λ k j e. ground (
    arith,
    find_id-assign_id m.id_seed k id m.local_real_mapping,
    h.below k j,
    ==_iff k m.id_seed,
  );
}

get_local_id-known :
    (m : SimpleIdMapping) (id : Name) (create : Bool) (k : ℕ)
    → find id m.real_local_mapping ≡ some k
    → get_local_id m id create ≡ some (k, m)
unfolding get_local_id
get_local_id-known m id create k e = rw (e, get_local_id) refl

get_local_id-new :
    (m : SimpleIdMapping) (id : Name)
    → find id m.real_local_mapping ≡ none
    → m.id_seed + 1 < 2 ^ 32
    → get_local_id m id true ≡ some (m.id_seed, grown m id)
unfolding get_local_id grown
get_local_id-new m id e lt =
    let whole : (m.id_seed + 1) % 2 ^ 32 ≡ m.id_seed + 1 = omega arith in
    rw (e, get_local_id, whole) refl

get_id-known :
    (m : SimpleIdMapping) (id : Name) (k : ℕ)
    → IsMapping m
    → find id m.real_local_mapping ≡ some k
    → get_id m k ≡ some id
unfolding get_id
get_id-known m id k h e = (h.inverse id k).0 e

-- what GetLocalID leaves: k stands for id, and all that stood for something still does
record IsAssigned (m m' : SimpleIdMapping) (id : Name) (k : ℕ) : Type 0 where
  mapping : IsMapping m'
  stored : get_id m' k ≡ some id
  kept : (j : ℕ) (other : Name) → get_id m j ≡ some other → get_id m' j ≡ some other
  found : get_local_id m' id false ≡ some (k, m')

grown-IsAssigned :
    (m : SimpleIdMapping) (id : Name)
    → IsMapping m
    → find id m.real_local_mapping ≡ none
    → IsAssigned m (grown m id) id m.id_seed
unfolding grown get_id
grown-IsAssigned m id h e =
    let at = λ (j : ℕ). find_id-assign_id m.id_seed j id m.local_real_mapping in
    let m' = grown-IsMapping m id h e in
    let stored : find_id m.id_seed (grown m id).local_real_mapping ≡ some id =
      ground (arith, at m.id_seed, ==_refl m.id_seed) in
    record {
      mapping = m';
      stored = stored;
      kept = λ j other e'. ground (arith, at j, h.below j other, ==_iff j m.id_seed);
      found =
          get_local_id-known (grown m id) id false m.id_seed ((m'.inverse id m.id_seed).1 stored);
    }

-- On a sound mapping with a seed below 2 ^ 32 - 1, GetLocalID that may create always gives a local
-- id and leaves a sound mapping. GetID then gives the id back, every local id in use before still
-- stands for its id, and GetLocalID that may not create finds the same local id. A mapping is sound
-- if its two tables are inverse and its local ids are below the seed.
pub get_id-get_local_id :
    (m : SimpleIdMapping) (id : Name)
    → IsMapping m
    → m.id_seed + 1 < 2 ^ 32
    → (k : ℕ) × (m' : SimpleIdMapping) × (get_local_id m id true ≡ some (k, m'))
      × IsMapping m'
      × (get_id m' k ≡ some id)
      × ((j : ℕ) (other : Name) → get_id m j ≡ some other → get_id m' j ≡ some other)
      × (get_local_id m' id false ≡ some (k, m'))
get_id-get_local_id m id h lt = elim (Option-cases (find id m.real_local_mapping)) [
  | inl e ↦
      let a = grown-IsAssigned m id h e in
      (m.id_seed, grown m id, get_local_id-new m id e lt, a.mapping, a.stored, a.kept, a.found)
  | inr (k, e) ↦ (
    k,
    m,
    get_local_id-known m id true k e,
    h,
    get_id-known m id k h e,
    λ j other s. s,
    get_local_id-known m id false k e,
  )
]
