-- ===== src/Base/Name.antt =====
-- Strings as their bytes, ordered sets of them (std::set) and tables keyed by them.
use myctk.Base.{
  ℕ, ◌≡◌, ◌↔◌, refl, Bool, true, false, ◌&&◌, ◌||◌, List, [], ◌∷◌, Option, none, some, ltb, ◌==◌,
  if◌then◌else◌, arith,
}

abbrev pub Name : Type 0
Name = List ℕ

infix 50 ◌=s◌
unfoldable pub ◌=s◌ : Name → Name → Bool
[] =s [] = true
[] =s (b ∷ bs) = false
(a ∷ xs) =s [] = false
(a ∷ xs) =s (b ∷ bs) = a == b && xs =s bs

abbrev pub is_nil : Name → Bool
is_nil [] = true
is_nil (a ∷ xs) = false

unfoldable pub less : Name → Name → Bool
less [] [] = false
less [] (b ∷ bs) = true
less (a ∷ xs) [] = false
less (a ∷ xs) (b ∷ bs) = ltb a b || a == b && less xs bs

-- std::set::insert
unfoldable pub set_insert : Name → List Name → List Name
set_insert a [] = a ∷ []
set_insert a (x ∷ xs) =
    if a =s x then x ∷ xs else if less a x then a ∷ x ∷ xs else x ∷ set_insert a xs

unfoldable pub set_union : List Name → List Name → List Name
set_union xs [] = xs
set_union xs (y ∷ ys) = set_union (set_insert y xs) ys

module _ {ℓ} {V : Type ℓ} where
  unfoldable pub find : Name → List (Name × V) → Option V
  find k [] = none
  find k ((j, v) ∷ m) = if k =s j then some v else find k m

  -- `table[k] = v`
  unfoldable pub assign : Name → V → List (Name × V) → List (Name × V)
  assign k v [] = (k, v) ∷ []
  assign k v ((j, w) ∷ m) = if k =s j then (j, v) ∷ m else (j, w) ∷ assign k v m

pub =s_iff : (a b : Name) → ((a =s b) ≡ true) ↔ (a ≡ b)
unfolding ◌=s◌
=s_iff [] [] = ground arith
=s_iff [] (b ∷ bs) = ground arith
=s_iff (a ∷ xs) [] = ground arith
=s_iff (a ∷ xs) (b ∷ bs) = ground (arith, =s_iff xs bs)

pub find-assign {ℓ} :
    {V : Type ℓ} (k j : Name) (v : V) (m : List (Name × V))
    → find j (assign k v m) ≡ (if j =s k then some v else find j m)
unfolding find assign
find-assign k j v [] = refl
find-assign k j v ((i, w) ∷ m) =
    ground (arith, find-assign k j v m, =s_iff j k, =s_iff k i, =s_iff j i)
