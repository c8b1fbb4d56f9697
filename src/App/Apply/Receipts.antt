-- ===== src/App/Apply/Receipts.antt =====
-- The receipts of internal/app/apply.go: their status, their errors and their steps.
use alex_cachyos.Prelude.{
  suc, String, ◌≡◌, Bool, true, false, not, ◌||◌, List, is_empty, any, all, length, ◌⊎◌,
}
use alex_cachyos.Executor.Types.{Result}
use alex_cachyos.App.Apply.{
  Receipt, ReceiptStep, Applier, Applied, applied, invalid_envelope, invalid_plan, Fault, execution,
  lock_contended, lock_refused, map_outcomes, is_failure,
}

-- A failed or blocked step says why.
abbrev pub is_coded : ReceiptStep → Bool
is_coded step = not (is_failure step.outcome) || not (is_empty step.error_code)

abbrev pub is_failed_step : ReceiptStep → Bool
is_failed_step step = is_failure step.outcome

-- The errors that a receipt has to tell of: the executor's, and a lock that was not given.
abbrev pub is_reported : Fault → Bool
is_reported (execution text) = true
is_reported lock_contended = true
is_reported lock_refused = true
is_reported _ = false

-- Something went wrong that the receipt has to tell of.
abbrev pub is_cause : Receipt → List Fault → Bool
is_cause receipt faults = any is_failed_step receipt.steps || any is_reported faults

-- The steps say why they failed; without a cause the receipt is a success with the given errors, and
-- with one it is a failure with one error more, which is never reported as unchanged.
abbrev pub IsHonest : List String → Receipt → List Fault → Type 0
IsHonest errors receipt faults =
    (all is_coded receipt.steps ≡ true)
    × (((is_cause receipt faults ≡ false)
          × (receipt.status ≡ "success")
          × (receipt.errors ≡ errors))
        ⊎ ((is_cause receipt faults ≡ true)
            × (receipt.status ≡ "failed")
            × (receipt.no_change ≡ false)
            × (length receipt.errors ≡ suc (length errors))))

module _ {W : Type 0} (a : Applier W) where
  started : Receipt → Result → Receipt
  started value result = record value {
    status = "success";
    no_change = result.no_change;
    steps = map_outcomes result.outcomes value.started_at value.finished_at;
  }

  abbrev pub IsHonestApplied : List String → Applied → Type 0
  IsHonestApplied errors (applied result faults) = IsHonest errors result.receipt faults
  IsHonestApplied errors invalid_envelope = Unit
  IsHonestApplied errors invalid_plan = Unit
