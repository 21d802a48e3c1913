-- ===== src/Tools/PriorityQueue.antt =====
-- `ThreadSafePriorityQueue` (include/tools/thread_safe_priority_queue.h): the top is the head of
-- the list. std::priority_queue says nothing of elements that `Comparison` holds equal; here the
-- one that came first comes first. `none` is a call that it leaves undefined, on an empty container.
use turtlecoin_v.Base.{
  ℕ, ◌≡◌, ◌+◌, refl, Bool, true, false, Option, none, some, List, [], ◌∷◌, length, All, arith,
  if◌then◌else◌, if_both, ◌++◌, subst, append-nil,
}
use mathlib.Core.List.{Perm, perm_middle}
use mathlib.Core.List.Perm

-- `before x y` is Comparison's `x < y`.
module _ {A : Type 0} (before : A → A → Bool) where
  unfoldable pub clear : List A → List A
  clear q = []

  unfoldable pub empty : List A → Bool
  empty [] = true
  empty (x ∷ q) = false

  unfoldable pub pop : List A → Option (A × List A)
  pop [] = none
  pop (x ∷ q) = some (x, q)

  unfoldable pub push : A → List A → List A
  push x [] = x ∷ []
  push x (y ∷ q) = let rest = push x q in if before y x then x ∷ (y ∷ q) else y ∷ rest

  unfoldable pub push_all : List A → List A → List A
  push_all [] q = q
  push_all (x ∷ xs) q = push_all xs (push x q)

  unfoldable pub size : List A → ℕ
  size q = length q

  unfoldable pub top : List A → Option A
  top [] = none
  top (x ∷ q) = some x

  -- No element comes after a greater one.
  abbrev pub IsHeap : List A → Type 0
  IsHeap [] = Unit
  IsHeap (x ∷ q) = All (λ y. before x y ≡ false) q × IsHeap q

  pub All-push : (P : A → Type 0) (x : A) (q : List A) → P x → All P q → All P (push x q)
  unfolding push
  All-push P x [] p h = (p, tt)
  All-push P x (y ∷ q) p h = ground (arith, All-push P x q p h.1)

  pub length-push : (x : A) (q : List A) → length (push x q) ≡ length q + 1
  unfolding push
  length-push x [] = refl
  length-push x (y ∷ q) = ground (arith, length-push x q)

  push-Perm : (x : A) (q : List A) → Perm (push x q) (x ∷ q)
  unfolding push
  push-Perm x [] = Perm.refl (x ∷ [])
  push-Perm x (y ∷ q) =
      if_both (λ l. Perm l (x ∷ (y ∷ q))) (before y x) (λ less. Perm.refl (x ∷ (y ∷ q)))
        (λ more. Perm.trans (Perm.cons y (push-Perm x q)) (Perm.swap x y q))

  push_all-Perm : (xs q : List A) → Perm (push_all xs q) (xs ++ q)
  unfolding push_all
  push_all-Perm [] q = Perm.refl q
  push_all-Perm (x ∷ xs) q =
      Perm.trans (push_all-Perm xs (push x q))
        (Perm.trans (Perm.append_left xs (push-Perm x q)) (perm_middle xs q))

  pop-cons : (q : List A) (x : A) (rest : List A) → pop q ≡ some (x, rest) → q ≡ x ∷ rest
  unfolding pop
  pop-cons [] x rest h = cc
  pop-cons (y ∷ q) x rest h = cc

  module _ (irrefl : (x : A) → before x x ≡ false)
      (trans : (x y z : A) → before x y ≡ true → before y z ≡ true → before x z ≡ true) where
    after : (x y z : A) → before y x ≡ true → before y z ≡ false → before x z ≡ false
    after x y z h k = ground (arith, trans y x z h)

    asym : (x y : A) → before x y ≡ true → before y x ≡ false
    asym x y h = ground (arith, irrefl x, trans x y x h)

    All-after :
        (x y : A) (q : List A)
        → before y x ≡ true
        → All (λ z. before y z ≡ false) q
        → All (λ z. before x z ≡ false) q
    All-after x y [] h all = tt
    All-after x y (z ∷ q) h all = (after x y z h all.0, All-after x y q h all.1)

    push-IsHeap : (x : A) (q : List A) → IsHeap q → IsHeap (push x q)
    unfolding push
    push-IsHeap x [] h = (tt, tt)
    push-IsHeap x (y ∷ q) h =
        if_both IsHeap (before y x) (λ less. ((asym y x less, All-after x y q less h.0), h))
          (λ more. (All-push (λ z. before y z ≡ false) x q more h.0, push-IsHeap x q h.1))

    push_all-IsHeap : (xs q : List A) → IsHeap q → IsHeap (push_all xs q)
    unfolding push_all
    push_all-IsHeap [] q h = h
    push_all-IsHeap (x ∷ xs) q h = push_all-IsHeap xs (push x q) (push-IsHeap x q h)

    -- For a Comparison that is irreflexive and transitive: if a queue got the elements of xs and
    -- nothing else, then its next pop gives one of them, none of those that stay is greater, and
    -- they are again in the order of a queue.
    pop_greatest :
        (xs : List A) (x : A) (rest : List A)
        → pop (push_all xs []) ≡ some (x, rest)
        → All (λ y. before x y ≡ false) rest × IsHeap rest × Perm (x ∷ rest) xs
    pop_greatest xs x rest h =
        let e : push_all xs [] ≡ x ∷ rest = pop-cons (push_all xs []) x rest h in
        let (greatest, ordered) : IsHeap (x ∷ rest) = subst IsHeap e (push_all-IsHeap xs [] tt) in
        let perm : Perm (x ∷ rest) (xs ++ []) =
          subst (λ q. Perm q (xs ++ [])) e (push_all-Perm xs []) in
        (greatest, ordered, subst (Perm (x ∷ rest)) (append-nil xs) perm)
