-- ===== src/Dealers/Laws.antt =====
-- Registering and invoking dealers.
use hraftd.Common.{
  ◌≡◌, ◌⊎◌, inl, inr, ◌↔◌, Bool, true, false, Option, none, some, Option-cases, arith,
  if◌then◌else◌,
}
use hraftd.Common.Text.{Text, ◌==◌}
use hraftd.Common.Result.{ok, Result-cases}
use hraftd.Common.Map.{lookup, insert, lookup-insert}
use hraftd.Model.{Command}
use hraftd.Dealers.{
  Dealer, Candidate, DealerMap, function, dealer_no_exists, check_dealer_fn, register_job_dealer,
  answer, invoke, taken, intercept, Log, DealerError, failed, dealer_continue, no_function,
}

module _ {Request Value : Type 0} (name : Text) (dealer : Dealer Request Value)
    (dealers : DealerMap Request Value) where
  -- A function of the right type whose name is free is registered; from then on requests for the
  -- name are read and answered by it, and requests for other names are answered as before.
  pub register-invoke :
      lookup name dealers ≡ none
      → (after : DealerMap Request Value) × (register_job_dealer name
            (function 1 2 true dealer)
            dealers
          ≡ (none, after))
        × ((other body : Text)
            → invoke other body after ≡ (
                if name == other
                then answer dealer (dealer.decode body)
                else invoke other body dealers))
  unfolding register_job_dealer check_dealer_fn invoke
  register-invoke free = (
    insert name dealer dealers,
    rw (free, register_job_dealer),
    λ other body. ground (arith, lookup-insert name other dealer dealers),
  )

check_dealer_fn-ok :
    {Request Value : Type 0} (c : Candidate Request Value) (d : Dealer Request Value)
    → check_dealer_fn c ≡ ok d
    → c ≡ function 1 2 true d
unfolding check_dealer_fn
check_dealer_fn-ok (function a b r d') d h = ground arith
check_dealer_fn-ok no_function d h = ground arith

module _ {Request Value : Type 0} (name : Text) (c : Candidate Request Value)
    (dealers : DealerMap Request Value) where
  -- A registration succeeds exactly if the name is free and the candidate is a function with one
  -- parameter and two results, the second an error; one that fails leaves the dealers as they were.
  pub register_outcome :
      (((register_job_dealer name c dealers).0 ≡ none)
        ↔ ((lookup name dealers ≡ none) × ((d : Dealer Request Value) × (c ≡ function 1 2 true d))))
      × ((e : Text)
          → (register_job_dealer name c dealers).0 ≡ some e
          → (register_job_dealer name c dealers).1 ≡ dealers)
  unfolding register_job_dealer
  register_outcome = elim (Option-cases (lookup name dealers)) [
    | inr (old, found) ↦ ground arith
    | inl free ↦ elim (Result-cases (check_dealer_fn c)) [
      | inl (d, good) ↦
          ((λ h. (free, (d, check_dealer_fn-ok c d good)), λ h. ground arith), λ e h. ground arith)
      | inr (m, bad) ↦
          ((λ h. ground arith, λ h. unfold check_dealer_fn in ground arith), λ e h. ground arith)
    ]
  ]

taken-none :
    {Value : Type 0} (r : Option Value × Option DealerError)
    → (taken r ≡ none) ↔ ((r.1 ≡ some dealer_no_exists) ⊎ (r.1 ≡ some dealer_continue))
unfolding taken
taken-none (ret, none) = ground arith
taken-none (ret, some dealer_no_exists) = ground arith
taken-none (ret, some dealer_continue) = ground arith
taken-none (ret, some (failed e)) = ground arith

module _ {Request Value : Type 0} (takes : Log → Command → Bool) (dealers : DealerMap Request Value)
    (l : Log) (c : Command) where
  -- A log entry is left to the store exactly if the interceptor declines it and the answer of the
  -- dealers under its key is that there is none or that it should be passed on.
  pub intercept-none_iff : (intercept (some takes) dealers l c ≡ none) ↔ (
      (takes l c ≡ false)
      × (((invoke c.key c.value dealers).1 ≡ some dealer_no_exists)
          ⊎ ((invoke c.key c.value dealers).1 ≡ some dealer_continue)))
  unfolding intercept
  intercept-none_iff = ground (arith, taken-none (invoke c.key c.value dealers))
