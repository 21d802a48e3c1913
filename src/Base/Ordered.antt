-- ===== src/Base/Ordered.antt =====
-- std::set and std::map as lists in ascending order of their keys.
use turtlecoin_v.Base.Tests.{ltb, ◌==◌, if◌then◌else◌}
use turtlecoin_v.Base.Lists.{All, All-append_one, length}
use Prim.Native.Nat.{ℕ, ◌<◌}
use mathlib.Core.Path.{◌≡◌, refl, ◌∙◌, sym}
use mathlib.Core.Bool.{Bool, true, false, ◌||◌}
use mathlib.Core.Logic.{◌≢◌}
use mathlib.Core.List.{List, [], ◌∷◌, ◌++◌, append_assoc, append-nil}
use native.Mathlib.Omega.{arith}

module _ {A : Type 0} (key : A → ℕ) where
  -- `insert`: an element with the same key stays.
  unfoldable pub insert : A → List A → List A
  insert x [] = x ∷ []
  insert x (y ∷ ys) =
      if ltb (key x) (key y)
      then x ∷ (y ∷ ys)
      else if key x == key y
      then y ∷ ys
      else y ∷ insert x ys

  -- `find(k) != end()`
  unfoldable pub contains : ℕ → List A → Bool
  contains k [] = false
  contains k (y ∷ ys) = k == key y || contains k ys

  -- Insertions one after the other, into `acc`.
  unfoldable pub insert_all : List A → List A → List A
  insert_all acc [] = acc
  insert_all acc (x ∷ xs) = insert_all (insert x acc) xs

  abbrev pub IsAscending : List A → Type 0
  IsAscending [] = Unit
  IsAscending (x ∷ xs) = All (λ y. key x < key y) xs × IsAscending xs

  insert_last : (x : A) (ys : List A) → All (λ y. key y < key x) ys → insert x ys ≡ ys ++ (x ∷ [])
  unfolding insert
  insert_last x [] h = refl
  insert_last x (y ∷ ys) h = ground (arith, insert_last x ys h.1)

  abbrev Below : List A → List A → Type 0
  Below acc xs = All (λ x. All (λ a. key a < key x) acc) xs

  Below-append_one :
      (acc xs : List A) (x : A)
      → Below acc xs
      → All (λ y. key x < key y) xs
      → Below (acc ++ (x ∷ [])) xs
  Below-append_one acc [] x h p = tt
  Below-append_one acc (y ∷ ys) x h p =
      (All-append_one (λ a. key a < key y) acc x h.0 p.0, Below-append_one acc ys x h.1 p.1)

  insert_all-append :
      (acc xs : List A) → Below acc xs → IsAscending xs → insert_all acc xs ≡ acc ++ xs
  unfolding insert_all
  insert_all-append acc [] h p = sym (append-nil acc)
  insert_all-append acc (x ∷ xs) h p = rw (insert_last x acc h.0) (
      insert_all-append (acc ++ (x ∷ [])) xs (Below-append_one acc xs x h.1 p.0) p.1
      ∙ append_assoc acc (x ∷ []) xs)

  Below-nil : (xs : List A) → Below [] xs
  Below-nil [] = tt
  Below-nil (x ∷ xs) = (tt, Below-nil xs)

  -- Building a container from the elements in order gives back the list.
  pub insert_all-ascending : (xs : List A) → IsAscending xs → insert_all [] xs ≡ xs
  insert_all-ascending xs p = insert_all-append [] xs (Below-nil xs) p

  pub All-insert : (P : A → Type 0) (x : A) (ys : List A) → P x → All P ys → All P (insert x ys)
  unfolding insert
  All-insert P x [] p h = (p, tt)
  All-insert P x (y ∷ ys) p h = ground (arith, All-insert P x ys p h.1)

  pub length-insert_pos : (x : A) (ys : List A) → 0 < length (insert x ys)
  unfolding insert
  length-insert_pos x [] = omega arith
  length-insert_pos x (y ∷ ys) = ground arith

  -- A key that differs from all others is not found.
  pub contains_ne : (k : ℕ) (ys : List A) → All (λ y. k ≢ key y) ys → contains k ys ≡ false
  unfolding contains
  contains_ne k [] h = refl
  contains_ne k (y ∷ ys) h = ground (arith, contains_ne k ys h.1)

  pub contains_pos : (k : ℕ) (ys : List A) → contains k ys ≡ true → 0 < length ys
  unfolding contains
  contains_pos k [] h = cc
  contains_pos k (y ∷ ys) h = omega arith
