-- ===== src/Responder/Dispatch.antt =====
-- The loop over one event's actions in web/swap_responder.js: what it logs and what it executes.
use near_instant.Common.{
  arith, ◌≡◌, refl, sym, ◌∙◌, ap, Bool, true, false, not, List, [], ◌∷◌, ◌++◌, Result, ok, err,
  length, if◌then◌else◌,
}
use mathlib.Core.List.{append_assoc, append-nil}
use mathlib.Core.Path.{subst}
use near_instant.Responder.Executed.{Ends, Did, Did-after}
use near_instant.Machine.{Action}
use near_instant.Responder.{
  Executor, Entry, acted, refused, Responder, FeedError, missing, failed, type_of, dispatch_all,
  Call,
}

-- The actions in a log.
unfoldable pub actions_in : List Entry → List Action
actions_in [] = []
actions_in (acted a ∷ log) = a ∷ actions_in log
actions_in (refused e why ∷ log) = actions_in log

-- Nothing has come back yet.
pub none_done :
    (x : Executor) (r : Responder) (actions : List Action)
    (out : Responder × Result FeedError (Unit {0}))
    → Ends x r.calls out.0.calls actions out.1
    → Did x r.calls actions out
none_done x r actions out ends = record {
  done = [];
  rest = actions;
  came_back = tt;
  in_order = refl;
  ends = subst (λ l. Ends x l out.0.calls actions out.1) (sym (append-nil r.calls)) ends;
}

pub actions_in_append :
    (xs ys : List Entry) → actions_in (xs ++ ys) ≡ actions_in xs ++ actions_in ys
unfolding actions_in
actions_in_append [] ys = refl
actions_in_append (acted a ∷ xs) ys = ap (λ l. a ∷ l) (actions_in_append xs ys)
actions_in_append (refused e why ∷ xs) ys = actions_in_append xs ys

-- What the loop over the actions logged and executed, and what it did not come to.
pub record Dispatched (x : Executor) (others : List Action) (r : Responder)
    (out : Responder × Result FeedError (Unit {0})) : Type 0 where
  pub undone : List Action
  pub machine_kept : out.0.machine ≡ r.machine
  pub done_first : actions_in out.0.log ++ undone ≡ actions_in r.log ++ others
  pub all_done : out.1 ≡ ok tt → undone ≡ []
  pub did : Did x r.calls others out

pub dispatch_all-Dispatched :
    (x : Executor) (others : List Action) (r : Responder)
    → Dispatched x others r (dispatch_all x others r)
unfolding dispatch_all actions_in
dispatch_all-Dispatched x [] r = record {
  undone = [];
  machine_kept = refl;
  done_first = refl;
  all_done = λ _. refl;
  did = none_done x r [] (r, ok tt) (refl, refl);
}
dispatch_all-Dispatched x (a ∷ others) r =
    by_branch (x.has (type_of a)) (x.works (length r.log) a r.machine) refl refl
      (dispatch_all-Dispatched x others called)
  where
    logged : Responder
    logged = record r { log = r.log ++ acted a ∷ [] }

    called : Responder
    called = record logged { calls = r.calls ++ (a, r.machine) ∷ [] }

    one_more :
        (l : List Action) → actions_in (r.log ++ acted a ∷ []) ++ l ≡ actions_in r.log ++ a ∷ l
    one_more l =
        ap (λ k. k ++ l) (actions_in_append r.log (acted a ∷ []))
        ∙ append_assoc (actions_in r.log) (a ∷ []) l

    stopped :
        (why : FeedError) (made : List Call)
        → Did x r.calls (a ∷ others) (record logged { calls = made }, err why)
        → Dispatched x (a ∷ others) r (record logged { calls = made }, err why)
    stopped why made did = record {
      undone = others;
      machine_kept = refl;
      done_first = one_more others;
      all_done = λ e. absurd (grind arith);
      did = did;
    }

    by_branch :
        (b c : Bool)
        → x.has (type_of a) ≡ b
        → x.works (length r.log) a r.machine ≡ c
        → Dispatched x others called (dispatch_all x others called)
        → Dispatched x (a ∷ others) r (
            if not b
            then (logged, err (missing a))
            else if c
            then dispatch_all x others called
            else (called, err (failed a)))
    by_branch false c has works h =
        stopped (missing a) r.calls (none_done x r (a ∷ others) _ (refl, (others, refl), has))
    by_branch true false has works h = stopped (failed a) called.calls (
        none_done x r (a ∷ others) _
          ((others, refl), has, ((a, r.machine), length r.log, refl, refl, works)))
    by_branch true true has works h = record {
      undone = h.undone;
      machine_kept = h.machine_kept;
      done_first = h.done_first ∙ one_more others;
      all_done = h.all_done;
      did =
          Did-after x r.calls ((a, r.machine) ∷ []) others _ ((has, (length r.log, works)), tt)
            h.did;
    }
