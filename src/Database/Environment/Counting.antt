-- ===== src/Database/Environment/Counting.antt =====
-- About the count of open transactions and the resizing of the map (src/database/db_lmdb.cpp).
use turtlecoin_v.Base.{
  ℕ, zero, suc, ◌+◌, ◌≡◌, Bool, true, some, List, [], ◌∷◌, ◌++◌, arith, ◌⊎◌, inl, inr, not, guard,
  Option-cases, if◌then◌else◌,
}
use turtlecoin_v.Errors.{Error, success, fail, ErrorCode}
use turtlecoin_v.Database.Environment.{
  Transaction, Environment, EnvInfo, EnvStat, transaction_register, transaction_unregister,
  detect_map_size, set_map_size, expand, close, begin_tries, begin_transaction, at, end_at,
  end_transaction, abort, commit,
}

-- The number of write transactions that have not ended.
abbrev pub writer : Transaction → ℕ
writer t = if t.live then if t.readonly then 0 else 1 else 0

abbrev pub writers : List Transaction → ℕ
writers [] = 0
writers (t ∷ ts) = writer t + writers ts

abbrev pub IsCounted : Environment → Type 0
IsCounted e = e.open_txns ≡ writers e.transactions

writers-append :
    (ts : List Transaction) (t : Transaction) → writers (ts ++ (t ∷ [])) ≡ writers ts + writer t
writers-append [] t = omega arith
writers-append (u ∷ ts) t = omega (arith, writers-append ts t)

-- Ending a live transaction takes its share off the number.
writers-end_at :
    (i : ℕ) (ts : List Transaction) (t : Transaction)
    → at i ts ≡ some t
    → writers (end_at i ts) + writer t ≡ writers ts
unfolding at end_at
writers-end_at i [] t e = cc e
writers-end_at zero (u ∷ ts) t e = ground arith
writers-end_at (suc i) (u ∷ ts) t e = omega (arith, writers-end_at i ts t e)

end_transaction-IsCounted :
    (i : ℕ) (t : Transaction) (e : Environment)
    → at i e.transactions ≡ some t
    → t.live ≡ true
    → IsCounted e
    → IsCounted (end_transaction i t e)
unfolding end_transaction transaction_unregister
end_transaction-IsCounted i t e found live h =
    ground (arith, writers-end_at i e.transactions t found)

abort-IsCounted : (i : ℕ) (e : Environment) → IsCounted e → IsCounted (abort i e)
unfolding abort
abort-IsCounted i e h = elim (Option-cases (at i e.transactions)) [
  | inl missing ↦ rw (missing, abort) h
  | inr (t, found) ↦
      rw (found, abort)
        (guard IsCounted (not t.live) h
          (λ dead. end_transaction-IsCounted i t e found (ground arith) h))
]

commit-IsCounted :
    (result : Error) (i : ℕ) (e : Environment) → IsCounted e → IsCounted (commit result i e).1
unfolding commit
commit-IsCounted result i e h = elim (Option-cases (at i e.transactions)) [
  | inl missing ↦ rw (missing, commit) h
  | inr (t, found) ↦
      rw (found, commit)
        (guard (λ (r : Error × Environment). IsCounted r.1) (not t.live) h
          (λ dead. end_transaction-IsCounted i t e found (ground arith) h))
]

detect-IsCounted :
    (result : Error) (size : ℕ) (e : Environment)
    → IsCounted e
    → IsCounted (detect_map_size result size e).1
unfolding detect_map_size
detect-IsCounted success size e h = ground arith
detect-IsCounted (fail x) size e h = ground arith

-- The tries of a start leave the objects alone, and what they do to the count is sound.
begin_tries-IsCounted :
    (begun : ℕ → Error) (sizes : ℕ → Error × ℕ) (left i : ℕ) (e : Environment)
    → IsCounted e
    → IsCounted (begin_tries begun sizes left i e).1
unfolding begin_tries
begin_tries-IsCounted begun sizes zero i e h = h
begin_tries-IsCounted begun sizes (suc left) i e h = ground (
  arith,
  begin_tries-IsCounted begun sizes left (i + 1) (detect_map_size (sizes i).0 (sizes i).1 e).1
      (detect-IsCounted (sizes i).0 (sizes i).1 e h),
)

begin-IsCounted :
    (begun : ℕ → Error) (sizes : ℕ → Error × ℕ) (readonly : Bool) (e : Environment)
    → IsCounted e
    → IsCounted (begin_transaction begun sizes readonly e).1
unfolding begin_transaction transaction_register
begin-IsCounted begun sizes readonly e h =
    let counted = begin_tries-IsCounted begun sizes 3 0 e h in
    ground (
      arith,
      counted,
      writers-append (begin_tries begun sizes 3 0 e).1.transactions
          (record { readonly = readonly; live = true }),
    )

expand-IsCounted :
    (i : ErrorCode ⊎ EnvInfo) (s : ErrorCode ⊎ EnvStat) (result : Error) (pages : ℕ)
    (e : Environment)
    → IsCounted e
    → IsCounted (expand i s result pages e).1
unfolding expand set_map_size
expand-IsCounted i s result pages e h = ground arith

close-IsCounted : (result : Error) (e : Environment) → IsCounted e → IsCounted (close result e).1
unfolding close
close-IsCounted result e h = ground arith

-- The calls on an environment and its transactions, with any results of the C library.
pub data Step : Environment → Environment → Type 0 where
  began :
      (begun : ℕ → Error) (sizes : ℕ → Error × ℕ) (readonly : Bool) (e : Environment)
      → Step e (begin_transaction begun sizes readonly e).1
  aborted : (i : ℕ) (e : Environment) → Step e (abort i e)
  committed : (result : Error) (i : ℕ) (e : Environment) → Step e (commit result i e).1
  detected :
      (result : Error) (size : ℕ) (e : Environment) → Step e (detect_map_size result size e).1
  expanded :
      (i : ErrorCode ⊎ EnvInfo) (s : ErrorCode ⊎ EnvStat) (result : Error) (pages : ℕ)
      (e : Environment)
      → Step e (expand i s result pages e).1
  closed : (result : Error) (e : Environment) → Step e (close result e).1

pub data Reach (start : Environment) : Environment → Type 0 where
  here : Reach start start
  next : {e e' : Environment} → Reach start e → Step e e' → Reach start e'

Step-IsCounted : {e e' : Environment} → Step e e' → IsCounted e → IsCounted e'
Step-IsCounted (began begun sizes readonly e) h = begin-IsCounted begun sizes readonly e h
Step-IsCounted (aborted i e) h = abort-IsCounted i e h
Step-IsCounted (committed result i e) h = commit-IsCounted result i e h
Step-IsCounted (detected result size e) h = detect-IsCounted result size e h
Step-IsCounted (expanded i s result pages e) h = expand-IsCounted i s result pages e h
Step-IsCounted (closed result e) h = close-IsCounted result e h

-- Whatever the C library returns: after any sequence of starts, aborts and commits of
-- transactions, detections of the size, expansions and closes, from an environment where this
-- holds, the count of open transactions is the number of write transactions that have not ended.
pub counting_invariant : {start e : Environment} → IsCounted start → Reach start e → IsCounted e
counting_invariant h here = h
counting_invariant h (next r st) = Step-IsCounted st (counting_invariant h r)

-- Whatever the C library returns: an expansion of the map that succeeds, in an environment reached
-- from one whose count is right, happens while no write transaction is live.
pub resize_without_writers :
    {start e : Environment}
    → IsCounted start
    → Reach start e
    → (i : ErrorCode ⊎ EnvInfo) (s : ErrorCode ⊎ EnvStat) (result : Error) (pages : ℕ)
    → (expand i s result pages e).0 ≡ success
    → writers e.transactions ≡ 0
unfolding expand
resize_without_writers {e = e} h r i s result pages done =
    let counted = counting_invariant h r in ground arith
