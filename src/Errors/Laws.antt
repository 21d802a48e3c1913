-- ===== src/Errors/Laws.antt =====
-- About chains of checks (the returns on an Error of src/errors/errors.h).
use turtlecoin_v.Base.{◌≡◌, refl, ◌↔◌, ◌⊎◌, inl, inr, false, Bool, List, [], ◌∷◌, All, arith}
use turtlecoin_v.Errors.{
  Error, ErrorCode, success, Outcome, ok, err, thrown, ◌>>◌, reject_if, check_each,
}

pub >>-success_iff : (a b : Error) → (a >> b ≡ success) ↔ ((a ≡ success) × (b ≡ success))
>>-success_iff Error.success b = ((λ h. (refl, h)), (λ h. h.1))
>>-success_iff (Error.fail e) b = ((λ h. cc), (λ h. h.0))

pub reject_if-success_iff : (b : Bool) (e : ErrorCode) → (reject_if b e ≡ success) ↔ (b ≡ false)
reject_if-success_iff b e = ground arith

-- A loop of checks succeeds exactly if each check does.
pub check_each-success_iff :
    {A : Type 0} (f : A → Error) (P : A → Type 0)
    → ((x : A) → (f x ≡ success) ↔ P x)
    → (xs : List A) → (check_each f xs ≡ success) ↔ All P xs
check_each-success_iff f P h [] = ((λ e. tt), (λ e. refl))
check_each-success_iff f P h (x ∷ xs) =
    let both = >>-success_iff (f x) (check_each f xs) in
    let ih = check_each-success_iff f P h xs in
    ((λ e. ((h x).0 (both.0 e).0, ih.0 (both.0 e).1)), (λ p. both.1 ((h x).1 p.0, ih.1 p.1)))

pub Outcome-cases :
    {A : Type 0} (o : Outcome A)
    → ((a : A) × (o ≡ ok a)) ⊎ (((x : ErrorCode) × (o ≡ err x)) ⊎ (o ≡ thrown))
Outcome-cases (ok a) = inl (a, refl)
Outcome-cases (err x) = inr (inl (x, refl))
Outcome-cases thrown = inr (inr refl)
