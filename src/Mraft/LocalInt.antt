-- ===== src/Mraft/LocalInt.antt =====
-- LocalInt<T>::Write and Read (mraft/utils.h): an integer of n bytes in network order.
use native.Mathlib.Nat.{pow-suc}
use myctk.Base.{
  ℕ, zero, suc, ◌+◌, ◌*◌, ◌/◌, ◌%◌, ◌^◌, ◌<◌, ◌≡◌, refl, List, [], ◌∷◌, ◌++◌, length, length-append,
  arith,
}

unfoldable pub write_int : ℕ → ℕ → List ℕ
write_int zero v = []
write_int (suc n) v = write_int n (v / 256) ++ (v % 256 ∷ [])

unfoldable pub read_from : ℕ → List ℕ → ℕ
read_from acc [] = acc
read_from acc (b ∷ bs) = read_from (acc * 256 + b) bs

abbrev pub read_int : List ℕ → ℕ
read_int bs = read_from 0 bs

pub length-write_int : (n v : ℕ) → length (write_int n v) ≡ n
unfolding write_int
length-write_int zero v = refl
length-write_int (suc n) v =
    omega
      (arith, length-append (write_int n (v / 256)) (v % 256 ∷ []), length-write_int n (v / 256))

read_from-append :
    (acc : ℕ) (xs : List ℕ) (b : ℕ) → read_from acc (xs ++ b ∷ []) ≡ read_from acc xs * 256 + b
unfolding read_from
read_from-append acc [] b = refl
read_from-append acc (x ∷ xs) b = read_from-append (acc * 256 + x) xs b

pub read_int-write_int : (n v : ℕ) → v < 256 ^ n → read_int (write_int n v) ≡ v
unfolding write_int
read_int-write_int zero v h = unfold read_from in omega arith
read_int-write_int (suc n) v h = omega (
  arith,
  read_from-append 0 (write_int n (v / 256)) (v % 256),
  read_int-write_int n (v / 256) (omega (arith, pow-suc 256 n)),
)
