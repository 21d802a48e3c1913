-- ===== src/Tools/Queue.antt =====
-- `ThreadSafeQueue` (include/tools/thread_safe_queue.h): the front is the head of the list. `none`
-- is a call that std::queue leaves undefined, on an empty container.
use turtlecoin_v.Base.{
  ℕ, zero, suc, ◌≡◌, refl, Bool, true, false, Option, none, some, List, [], ◌∷◌, ◌++◌, length,
  append_assoc, append-nil, sym, ◌∙◌,
}

module _ {A : Type 0} where
  unfoldable pub clear : List A → List A
  clear q = []

  unfoldable pub empty : List A → Bool
  empty [] = true
  empty (x ∷ q) = false

  unfoldable pub front : List A → Option A
  front [] = none
  front (x ∷ q) = some x

  unfoldable pub back : List A → Option A
  back [] = none
  back (x ∷ []) = some x
  back (x ∷ (y ∷ q)) = back (y ∷ q)

  unfoldable pub pop : List A → Option (A × List A)
  pop [] = none
  pop (x ∷ q) = some (x, q)

  unfoldable pub push : A → List A → List A
  push x q = q ++ (x ∷ [])

  unfoldable pub push_all : List A → List A → List A
  push_all [] q = q
  push_all (x ∷ xs) q = push_all xs (push x q)

  unfoldable pub size : List A → ℕ
  size q = length q

  unfoldable pub skip : List A → List A
  skip [] = []
  skip (x ∷ q) = q

  -- Several calls of `pop`, with what they return.
  abbrev pub pop_many : ℕ → List A → Option (List A × List A)
  pop_many zero q = some ([], q)
  pop_many (suc n) [] = none
  pop_many (suc n) (x ∷ q) = elim (pop_many n q) [
    | none ↦ none
    | some (xs, rest) ↦ some (x ∷ xs, rest)
  ]

  pub push_all-append : (xs q : List A) → push_all xs q ≡ q ++ xs
  unfolding push_all push
  push_all-append [] q = sym (append-nil q)
  push_all-append (x ∷ xs) q = push_all-append xs (q ++ (x ∷ [])) ∙ append_assoc q (x ∷ []) xs

  pop_many-append : (xs rest : List A) → pop_many (length xs) (xs ++ rest) ≡ some (xs, rest)
  pop_many-append [] rest = refl
  pop_many-append (x ∷ xs) rest = rw (pop_many-append xs rest, pop_many) refl

  -- First in, first out.
  pub queue_fifo :
      (xs ys q : List A)
      → pop_many (length (q ++ xs)) (push_all ys (push_all xs q)) ≡ some (q ++ xs, ys)
  queue_fifo xs ys q =
      rw (push_all-append xs q, push_all-append ys (q ++ xs)) (pop_many-append (q ++ xs) ys)
