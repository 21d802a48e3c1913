-- ===== src/Tools/Map.antt =====
-- `ThreadSafeMap` (include/tools/thread_safe_map.h): a std::map as its elements in ascending order of
-- the keys, which are numbered in that order.
use turtlecoin_v.Base.{
  ℕ, Bool, true, false, Option, none, some, List, [], ◌∷◌, ltb, ◌==◌, if◌then◌else◌, length, map,
}
use turtlecoin_v.Base.Ordered

module _ {R : Type 0} where
  abbrev pub key_of : ℕ × R → ℕ
  key_of e = e.0

  unfoldable pub clear : List (ℕ × R) → List (ℕ × R)
  clear m = []

  unfoldable pub empty : List (ℕ × R) → Bool
  empty [] = true
  empty (e ∷ m) = false

  unfoldable pub size : List (ℕ × R) → ℕ
  size m = length m

  -- `none` is the exception for a key that is not there.
  unfoldable pub at : ℕ → List (ℕ × R) → Option R
  at k [] = none
  at k (e ∷ m) = if k == key_of e then some e.1 else at k m

  unfoldable pub contains : ℕ → List (ℕ × R) → Bool
  contains k m = Ordered.contains key_of k m

  -- `insert` leaves a value that is there.
  unfoldable pub insert : ℕ → R → List (ℕ × R) → List (ℕ × R)
  insert k v m = Ordered.insert key_of (k, v) m

  unfoldable pub insert_or_assign : ℕ → R → List (ℕ × R) → List (ℕ × R)
  insert_or_assign k v [] = (k, v) ∷ []
  insert_or_assign k v (e ∷ m) =
      let rest = insert_or_assign k v m in
      if ltb k (key_of e) then (k, v) ∷ (e ∷ m) else if k == key_of e then (k, v) ∷ m else e ∷ rest

  unfoldable pub erase : ℕ → List (ℕ × R) → List (ℕ × R)
  erase k [] = []
  erase k (e ∷ m) = let rest = erase k m in if k == key_of e then m else e ∷ rest

  -- `eachref` with a function that gives an element's new value; a key cannot change.
  unfoldable pub eachref : (ℕ → R → R) → List (ℕ × R) → List (ℕ × R)
  eachref f m = map (λ e. (e.0, f e.0 e.1)) m
