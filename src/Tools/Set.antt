-- ===== src/Tools/Set.antt =====
-- `ThreadSafeSet` (include/tools/thread_safe_set.h): a std::set as the list of its elements, whose
-- order nothing here looks at.
use turtlecoin_v.Base.{
  ℕ, ◌≡◌, ◌≢◌, ◌≤◌, ◌+◌, Bool, true, false, not, ◌&&◌, ◌||◌, ◌==◌, List, [], ◌∷◌, length,
  if◌then◌else◌, arith, refl,
}

unfoldable pub contains : ℕ → List ℕ → Bool
contains x [] = false
contains x (y ∷ ys) = x == y || contains x ys

unfoldable pub insert : ℕ → List ℕ → List ℕ
insert x xs = if contains x xs then xs else x ∷ xs

unfoldable pub erase : ℕ → List ℕ → List ℕ
erase x [] = []
erase x (y ∷ ys) = let rest = erase x ys in if x == y then rest else y ∷ rest

unfoldable pub clear : List ℕ → List ℕ
clear xs = []

unfoldable pub size : List ℕ → ℕ
size xs = length xs

contains-erase_self : (x : ℕ) (xs : List ℕ) → contains x (erase x xs) ≡ false
unfolding contains erase
contains-erase_self x [] = refl
contains-erase_self x (y ∷ ys) = ground (arith, contains-erase_self x ys)

contains-erase_other : (x y : ℕ) (xs : List ℕ) → y ≢ x → contains y (erase x xs) ≡ contains y xs
unfolding contains erase
contains-erase_other x y [] ne = refl
contains-erase_other x y (z ∷ xs) ne = ground (arith, contains-erase_other x y xs ne)

-- Membership.
pub set_membership :
    (x y : ℕ) (xs : List ℕ)
    → (contains y (insert x xs) ≡ (y == x || contains y xs))
      × (contains y (erase x xs) ≡ (not (y == x) && contains y xs))
unfolding contains insert
set_membership x y xs =
    (ground arith, ground (arith, contains-erase_self x xs, contains-erase_other x y xs))

pub length-erase : (x : ℕ) (xs : List ℕ) → length (erase x xs) ≤ length xs
unfolding erase
length-erase x [] = omega arith
length-erase x (y ∷ ys) = ground (arith, length-erase x ys)

pub length-insert : (x : ℕ) (xs : List ℕ) → length (insert x xs) ≤ length xs + 1
unfolding insert
length-insert x xs = ground arith

pub contains-insert :
    (x y : ℕ) (xs : List ℕ) → contains x xs ≡ true → contains x (insert y xs) ≡ true
unfolding insert contains
contains-insert x y xs h = ground arith

pub contains-insert_other :
    (x y : ℕ) (xs : List ℕ) → x ≢ y → contains x xs ≡ false → contains x (insert y xs) ≡ false
unfolding insert contains
contains-insert_other x y xs ne h = ground arith

pub contains-insert_self : (x : ℕ) (xs : List ℕ) → contains x (insert x xs) ≡ true
unfolding insert contains
contains-insert_self x xs = ground arith
