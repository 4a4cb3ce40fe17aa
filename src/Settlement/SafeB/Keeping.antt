-- ===== src/Settlement/SafeB/Keeping.antt =====
-- B's invariant as the interface of the shared steps.
use near_instant.Common.{ap, false, some, arith}
use near_instant.Settlement.Types.{World, Party}
use near_instant.Settlement.Trail.{and_then}
use near_instant.Settlement.Guard.{Guard, first_open}
use near_instant.Settlement.SafeB.{KeepsB, checks_any, shares_open, shares_refund}
use near_instant.Settlement.Refunds.{is_some}

pub Guard-b : (w : World) (p : Party) → Guard w p false (KeepsB w p)
Guard-b w p = record {
  checks = λ P b. record { at = λ c t h q. (h.0, and_then (checks_any b c t) h.1) };
  signs_open = λ P n. record { at = λ c t h q. (h.0, and_then (shares_open n c t) h.1) };
  broadcasts_open = λ P n e. absurd (ground arith);
  signs_refund =
      λ o n. record { at = λ c t h q. (h.0, and_then (shares_refund n c t (ap is_some q)) h.1) };
  has_refund = λ c t h. h.0;
  opens_first = λ c t o h e. (first_open w p c e h.0 (some o), h.1);
  refund_first = λ c t r h ok. (ok, h.1);
}
