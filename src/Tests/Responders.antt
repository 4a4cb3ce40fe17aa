-- ===== src/Tests/Responders.antt =====
-- Runs of the responder.
use near_instant.Common.{ltb, map, ◌≡◌, refl, true, false, List, [], ◌∷◌, none, some, ok}
use near_instant.Machine.{
  xmr_seller, Event, both_bonds_confirmed, xmr_lock_observed, lock_xmr_chunk, new, handle,
}
use near_instant.Schedule.{max_at_risk}
use near_instant.Responder.{
  feed, respond, dispatch_all, first_missing, Executor, acted, Responder, make_responder, drive,
  Call,
}
use near_instant.Responder.Refines.{Ran, drive-Ran}

-- An executor that fails at every action but the first in the log.
abbrev executor : Executor
executor = record { has = λ t. true; works = λ n a m. ltb n 1 }

abbrev made : Responder
made = record { machine = new xmr_seller (5 ∷ 7 ∷ []) none; log = []; calls = []; aborted = false }

abbrev events : List Event
events = both_bonds_confirmed ∷ xmr_lock_observed 0 10 ∷ []

makes : make_responder xmr_seller (5 ∷ 7 ∷ []) executor none ≡ ok made
unfolding make_responder first_missing
makes = refl

drives : (drive executor made events).0.log ≡ acted (lock_xmr_chunk 0 (some 5)) ∷ []
unfolding drive feed respond handle new max_at_risk dispatch_all
drives = refl

calls_made :
    map (λ (k : Call). k.0) (drive executor made events).0.calls ≡ lock_xmr_chunk 0 (some 5) ∷ []
unfolding drive feed respond handle new max_at_risk dispatch_all
calls_made = refl

drive-Ran_example : Ran executor made.machine [] [] events (drive executor made events)
drive-Ran_example = drive-Ran executor events made
