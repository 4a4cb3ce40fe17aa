-- ===== src/Responder/Executed.antt =====
-- The calls of the executor that a run of web/swap_responder.js makes.
use mathlib.Core.List.{append_assoc, map-append}
use mathlib.Core.Path.{subst}
use near_instant.Common.{
  ℕ, ◌≡◌, ap, ◌∙◌, true, false, List, [], ◌∷◌, ◌++◌, Result, ok, err, map, All, All-append,
}
use near_instant.Machine.{Action}
use near_instant.Responder.{
  Executor, Call, Responder, FeedError, machine_error, missing, failed, type_of,
}

-- The executor has a function for the call, and it came back.
abbrev pub CameBack : Executor → Call → Type 0
CameBack x (a, m) = (x.has (type_of a) ≡ true) × ((n : ℕ) × (x.works n a m ≡ true))

-- How a run ends whose calls up to `done` came back: nothing is left; or the next action has no
-- function, and is not called; or the function of the next action is called and throws; or the machine
-- refused the event.
abbrev pub Ends :
    Executor → List Call → List Call → List Action → Result FeedError (Unit {0}) → Type 0
Ends x done calls rest (ok u) = (calls ≡ done) × (rest ≡ [])
Ends x done calls rest (err (machine_error why)) = (calls ≡ done) × (rest ≡ [])
Ends x done calls rest (err (missing a)) =
    (calls ≡ done) × ((more : List Action) × (rest ≡ a ∷ more)) × (x.has (type_of a) ≡ false)
Ends x done calls rest (err (failed a)) =
    ((more : List Action) × (rest ≡ a ∷ more))
    × (x.has (type_of a) ≡ true)
    × ((m : Call) × (n : ℕ) × (m.0 ≡ a) × (calls ≡ done ++ m ∷ []) × (x.works n a m.1 ≡ false))

-- Of the actions, the first have been executed, in order and each once, and `rest` has not.
pub record Did (x : Executor) (before : List Call) (actions : List Action)
    (out : Responder × Result FeedError (Unit {0})) : Type 0 where
  pub done : List Call
  pub rest : List Action
  pub came_back : All (CameBack x) done
  pub in_order : map (λ (k : Call). k.0) done ++ rest ≡ actions
  pub ends : Ends x (before ++ done) out.0.calls rest out.1

-- What was executed after calls that came back.
pub Did-after :
    (x : Executor) (before first : List Call) (actions : List Action)
    (out : Responder × Result FeedError (Unit {0}))
    → All (CameBack x) first
    → Did x (before ++ first) actions out
    → Did x before (map (λ (k : Call). k.0) first ++ actions) out
Did-after x before first actions out h d = record {
  done = first ++ d.done;
  rest = d.rest;
  came_back = All-append (CameBack x) first d.done h d.came_back;
  in_order =
      ap (λ l. l ++ d.rest) (map-append (λ (k : Call). k.0) first d.done)
      ∙ append_assoc _ _ d.rest
      ∙ ap (λ l. map (λ (k : Call). k.0) first ++ l) d.in_order;
  ends = subst (λ l. Ends x l out.0.calls d.rest out.1) (append_assoc before first d.done) d.ends;
}
