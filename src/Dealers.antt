-- ===== src/Dealers.antt =====
-- job.go and logdealer.go: dealers, functions registered under a name that take a JSON request; and
-- `Arg.Intercept` of arg.go, which lets them take a raft log entry before the store does.
-- A dealer's function and its request type are reflected values in the source; here a dealer is
-- given by how it reads a request and what it answers.
pub mod Laws
use hraftd.Common.{
  ℕ, Bool, true, false, not, ◌&&◌, Option, none, some, [], ◌∷◌, ◌++◌, eqb, if◌then◌else◌,
}
use hraftd.Common.Text.{Text, lit}
use hraftd.Common.Result.{Result, ok, err}
use hraftd.Common.Map.{Map, lookup, insert}
use hraftd.Model.{Command}

-- An error: one that `errors.Is` finds to be ErrDealerNoExists or ErrDealerContinue, or any other.
pub data DealerError : Type 0 where
  dealer_no_exists dealer_continue : DealerError
  failed : Text → DealerError

-- Requests and answers of the dealers.
module _ (Request Value : Type 0) where
  -- Dealer: `decode` is Unmarshal at ReqType, `call` is Fn
  pub record Dealer : Type 0 where
    pub decode : Text → Result Request
    pub call : Request → Option Value × Option DealerError

  -- What may be handed to RegisterJobDealer: a function with so many parameters and results, the
  -- second of which is an error or not, or something else.
  pub data Candidate : Type 0 where
    function : (num_in num_out : ℕ) → (returns_error : Bool) → Dealer → Candidate
    no_function : Candidate

  abbrev pub DealerMap : Type 0
  DealerMap = Map Dealer

-- What Apply hands back to the raft library.
pub data Reply (Value : Type 0) : Type 0 where
  nil : Reply Value
  value : Value → Reply Value
  error : DealerError → Reply Value

-- The part of a raft log entry that the program reads, its data.
abbrev pub Log : Type 0
Log = Text

module _ {Value : Type 0} where
  abbrev reply_of : Option Value → Reply Value
  reply_of none = nil
  reply_of (some v) = value v

  -- the second half of Intercept: the answer of a dealer; `none` is "not intercepted"
  unfoldable pub taken : Option Value × Option DealerError → Option (Reply Value)
  taken (ret, none) = some (reply_of ret)
  taken (ret, some dealer_no_exists) = none
  taken (ret, some dealer_continue) = none
  taken (ret, some (failed e)) = some (error (failed e))

module _ {Request Value : Type 0} where
  -- checkDealerFn
  unfoldable pub check_dealer_fn : Candidate Request Value → Result (Dealer Request Value)
  check_dealer_fn no_function = err (lit "function required")
  check_dealer_fn (function num_in num_out returns_error dealer) =
      if not (eqb num_in 1 && eqb num_out 2)
      then err (lit "function must have 1 parameter and return like (x,error)")
      else if not returns_error
      then err (lit "function must return like" ++ (0xef ∷ 0xbc ∷ 0x88 ∷ lit "x, error)"))
      else ok dealer

  -- MakeDealerMap, and MakeLogDealer, whose LogDealer is a DealerMap
  abbrev pub make_dealer_map : DealerMap Request Value
  make_dealer_map = []

  -- DealerMap.RegisterJobDealer
  unfoldable pub register_job_dealer :
      Text
      → Candidate Request Value
      → DealerMap Request Value
      → Option Text × DealerMap Request Value
  register_job_dealer name dealer dealers = elim (lookup name dealers) [
    | some _ ↦ (some (lit "dealer [] " ++ (name ++ lit " already registered")), dealers)
    | none ↦ elim (check_dealer_fn dealer) [
      | err e ↦ (some e, dealers)
      | ok d ↦ (none, insert name d dealers)
    ]
  ]

  -- LogDealer.RegisterLogDealer
  abbrev pub register_log_dealer :
      Text
      → Candidate Request Value
      → DealerMap Request Value
      → Option Text × DealerMap Request Value
  register_log_dealer cmd_name dealer_fn dealers = register_job_dealer cmd_name dealer_fn dealers

  -- the rest of Invoke, once the request is read
  abbrev pub answer : Dealer Request Value → Result Request → Option Value × Option DealerError
  answer d (err e) = (none, some (failed e))
  answer d (ok req) = d.call req

  -- DealerMap.Invoke
  unfoldable pub invoke : Text → Text → DealerMap Request Value → Option Value × Option DealerError
  invoke name body dealers = elim (lookup name dealers) [
    | none ↦ (none, some dealer_no_exists)
    | some d ↦ answer d (d.decode body)
  ]

  -- Arg.Intercept: the interceptor, where one is set, is asked first
  unfoldable pub intercept :
      Option (Log → Command → Bool) → DealerMap Request Value → Log → Command → Option (Reply Value)
  intercept interceptor dealers l c =
      let by_dealer = taken (invoke c.key c.value dealers) in
      elim interceptor [ none ↦ by_dealer | some takes ↦ if takes l c then some nil else by_dealer ]
