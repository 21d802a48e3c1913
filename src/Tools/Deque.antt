-- ===== src/Tools/Deque.antt =====
-- `ThreadSafeDeque` (include/tools/thread_safe_deque.h): the front is the head of the list. `none` is
-- a call that std::deque leaves undefined, or the exception of `at`.
use turtlecoin_v.Base.{
  ℕ, zero, suc, ◌≡◌, refl, Bool, true, false, Option, none, some, List, [], ◌∷◌, ◌++◌, append_assoc,
  sym, ap, ◌∙◌, if◌then◌else◌, map,
}

module _ {A : Type 0} where
  unfoldable pub at : ℕ → List A → Option A
  at i [] = none
  at zero (x ∷ q) = some x
  at (suc i) (x ∷ q) = at i q

  unfoldable pub set : ℕ → A → List A → Option (List A)
  set i v [] = none
  set zero v (x ∷ q) = some (v ∷ q)
  set (suc i) v (x ∷ q) = elim (set i v q) [ none ↦ none | some q' ↦ some (x ∷ q') ]

  unfoldable pub front : List A → Option A
  front [] = none
  front (x ∷ q) = some x

  unfoldable pub back : List A → Option A
  back [] = none
  back (x ∷ []) = some x
  back (x ∷ (y ∷ q)) = back (y ∷ q)

  unfoldable pub pop_front : List A → Option (A × List A)
  pop_front [] = none
  pop_front (x ∷ q) = some (x, q)

  unfoldable pub skip_front : List A → List A
  skip_front [] = []
  skip_front (x ∷ q) = q

  unfoldable pub skip_back : List A → List A
  skip_back [] = []
  skip_back (x ∷ []) = []
  skip_back (x ∷ (y ∷ q)) = x ∷ skip_back (y ∷ q)

  unfoldable pub pop_back : List A → Option (A × List A)
  pop_back q = elim (back q) [ none ↦ none | some x ↦ some (x, skip_back q) ]

  unfoldable pub push_back : A → List A → List A
  push_back x q = q ++ (x ∷ [])

  unfoldable pub push_back_all : List A → List A → List A
  push_back_all [] q = q
  push_back_all (x ∷ xs) q = push_back_all xs (push_back x q)

  unfoldable pub push_front : A → List A → List A
  push_front x q = x ∷ q

  -- `std::reverse`
  unfoldable pub reverse : List A → List A
  reverse [] = []
  reverse (x ∷ xs) = reverse xs ++ (x ∷ [])

  unfoldable pub push_front_each : List A → List A → List A
  push_front_each [] q = q
  push_front_each (x ∷ xs) q = push_front_each xs (push_front x q)

  unfoldable pub push_front_all : Bool → List A → List A → List A
  push_front_all preserve_order items q =
      push_front_each (if preserve_order then reverse items else items) q

  -- `resize(count)`, with the default value of the type.
  unfoldable pub resize : A → ℕ → List A → List A
  resize default zero q = []
  resize default (suc n) [] = default ∷ resize default n []
  resize default (suc n) (x ∷ q) = x ∷ resize default n q

  -- `eachref` with a function that gives the element's new value.
  unfoldable pub eachref : (A → A) → List A → List A
  eachref f q = map f q

  push_front_each-append :
      (xs ys q : List A) → push_front_each (xs ++ ys) q ≡ push_front_each ys (push_front_each xs q)
  unfolding push_front_each
  push_front_each-append [] ys q = refl
  push_front_each-append (x ∷ xs) ys q = push_front_each-append xs ys (push_front x q)

  push_front_each-reverse : (xs q : List A) → push_front_each (reverse xs) q ≡ xs ++ q
  unfolding push_front_each push_front reverse
  push_front_each-reverse [] q = refl
  push_front_each-reverse (x ∷ xs) q =
      push_front_each-append (reverse xs) (x ∷ []) q
      ∙ ap (λ r. x ∷ r) (push_front_each-reverse xs q)

  reverse-append : (xs q : List A) → push_front_each xs q ≡ reverse xs ++ q
  unfolding push_front_each push_front reverse
  reverse-append [] q = refl
  reverse-append (x ∷ xs) q = reverse-append xs (x ∷ q) ∙ sym (append_assoc (reverse xs) (x ∷ []) q)

  -- Both orders.
  pub push_front_order :
      (items q : List A)
      → (push_front_all true items q ≡ items ++ q)
        × (push_front_all false items q ≡ reverse items ++ q)
  unfolding push_front_all
  push_front_order items q = (push_front_each-reverse items q, reverse-append items q)

  back-push_back : (x : A) (q : List A) → back (q ++ (x ∷ [])) ≡ some x
  unfolding back
  back-push_back x [] = refl
  back-push_back x (y ∷ []) = refl
  back-push_back x (y ∷ (z ∷ q)) = back-push_back x (z ∷ q)

  skip_back-push_back : (x : A) (q : List A) → skip_back (q ++ (x ∷ [])) ≡ q
  unfolding skip_back
  skip_back-push_back x [] = refl
  skip_back-push_back x (y ∷ []) = refl
  skip_back-push_back x (y ∷ (z ∷ q)) = ap (λ r. y ∷ r) (skip_back-push_back x (z ∷ q))

  -- Last in, first out at either end.
  pub pop-push :
      (x : A) (q : List A)
      → (pop_front (push_front x q) ≡ some (x, q)) × (pop_back (push_back x q) ≡ some (x, q))
  unfolding pop_front push_front pop_back push_back
  pop-push x q = (refl, rw (back-push_back x q, skip_back-push_back x q, pop_back) refl)
