-- ===== src/Storage/Seeking/Sorted.antt =====
-- Insertions in the order of a key, for items with different keys.
use turtlecoin_v.Base.{
  ℕ, ◌≡◌, ◌≢◌, ◌<◌, ◌+◌, sym, Bool, ltb, List, [], ◌∷◌, ◌++◌, length, All, All-append_one, arith,
  if_both,
}
use turtlecoin_v.Base.Ordered.{IsAscending}
use turtlecoin_v.Tools.PriorityQueue.{push, push_all, All-push, length-push}

module _ {A : Type 0} (key : A → ℕ) where
  abbrev pub above : A → A → Bool
  above x y = ltb (key y) (key x)

  abbrev pub IsFresh : A → List A → Type 0
  IsFresh x q = All (λ y. key y ≢ key x) q

  abbrev pub IsDistinct : List A → Type 0
  IsDistinct [] = Unit
  IsDistinct (x ∷ xs) = IsFresh x xs × IsDistinct xs

  pub IsDistinct-append_one :
      (xs : List A) (x : A) → IsDistinct xs → IsFresh x xs → IsDistinct (xs ++ (x ∷ []))
  IsDistinct-append_one [] x d f = (tt, tt)
  IsDistinct-append_one (y ∷ ys) x d f = (
    All-append_one (λ z. key z ≢ key y) ys x d.0 (λ same. f.0 (sym same)),
    IsDistinct-append_one ys x d.1 f.1,
  )

  All-below :
      (x y : A) (q : List A)
      → key x < key y
      → All (λ z. key y < key z) q
      → All (λ z. key x < key z) q
  All-below x y [] h all = tt
  All-below x y (z ∷ q) h all = (omega (arith, h, all.0), All-below x y q h all.1)

  push-IsAscending :
      (x : A) (q : List A) → IsFresh x q → IsAscending key q → IsAscending key (push above x q)
  unfolding push
  push-IsAscending x [] fresh h = (tt, tt)
  push-IsAscending x (y ∷ q) fresh h =
      if_both (IsAscending key) (above y x)
        (λ below. let less : key x < key y = ground arith in ((less, All-below x y q less h.0), h))
        (λ other.
          let less : key y < key x = ground (arith, fresh.0) in
          (All-push above (λ z. key y < key z) x q less h.0, push-IsAscending x q fresh.1 h.1))

  IsFresh-push :
      (x : A) (q zs : List A)
      → IsFresh x zs
      → All (λ z. IsFresh z q) zs
      → All (λ z. IsFresh z (push above x q)) zs
  IsFresh-push x q [] fresh h = tt
  IsFresh-push x q (z ∷ zs) fresh h = (
    All-push above (λ y. key y ≢ key z) x q (λ same. fresh.0 (sym same)) h.0,
    IsFresh-push x q zs fresh.1 h.1,
  )

  push_all-IsAscending :
      (xs q : List A)
      → IsDistinct xs
      → All (λ x. IsFresh x q) xs
      → IsAscending key q
      → IsAscending key (push_all above xs q)
  unfolding push_all
  push_all-IsAscending [] q d f h = h
  push_all-IsAscending (x ∷ xs) q d f h =
      push_all-IsAscending xs (push above x q) d.1 (IsFresh-push x q xs d.0 f.1)
        (push-IsAscending x q f.0 h)

  nothing_there : (xs : List A) → All (λ x. IsFresh x []) xs
  nothing_there [] = tt
  nothing_there (x ∷ xs) = (tt, nothing_there xs)

  pub sorted-IsAscending : (xs : List A) → IsDistinct xs → IsAscending key (push_all above xs [])
  sorted-IsAscending xs d = push_all-IsAscending xs [] d (nothing_there xs) tt

  pub All-push_all :
      (P : A → Type 0) (xs q : List A) → All P xs → All P q → All P (push_all above xs q)
  unfolding push_all
  All-push_all P [] q h k = k
  All-push_all P (x ∷ xs) q h k =
      All-push_all P xs (push above x q) h.1 (All-push above P x q h.0 k)

  pub length-push_all : (xs q : List A) → length (push_all above xs q) ≡ length xs + length q
  unfolding push_all
  length-push_all [] q = omega arith
  length-push_all (x ∷ xs) q =
      omega (arith, length-push_all xs (push above x q), length-push above x q)
