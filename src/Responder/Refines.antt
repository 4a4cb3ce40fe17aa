-- ===== src/Responder/Refines.antt =====
-- The responder of web/swap_responder.js beside a run of the machine.
use near_instant.Common.{
  arith, ℕ, suc, ◌≡◌, refl, sym, ◌∙◌, ap, true, List, [], ◌∷◌, ◌++◌, Result, ok, err, map, take,
  if◌then◌else◌,
}
use mathlib.Core.List.{append_assoc, append-nil}
use mathlib.Core.Path.{subst}
use near_instant.Responder.Executed.{Did, Did-after}
use near_instant.Machine.{Machine, Event, Action, MachineError, handle, run, returned}
use near_instant.Responder.{
  after_feed, Executor, Entry, refused, Responder, FeedError, is_aborted, respond, feed, drive,
  Call,
}
use near_instant.Responder.Dispatch.{
  actions_in, none_done, actions_in_append, dispatch_all-Dispatched,
}

-- What was fed of the events: the machine is the one after them, what was logged is what it returned, or
-- the front of that where something threw, and so is what was executed.
pub record Ran (x : Executor) (m : Machine) (log : List Entry) (calls : List Call) (es : List Event)
    (out : Responder × Result FeedError (Unit {0})) : Type 0 where
  pub fed : ℕ
  pub unlogged : List Action
  pub at_machine : out.0.machine ≡ (run m (take fed es)).0
  pub in_order : actions_in out.0.log ++ unlogged ≡ actions_in log ++ (run m (take fed es)).1
  pub executed : Did x calls (run m (take fed es)).1 out
  pub to_the_end : out.1 ≡ ok tt → (unlogged ≡ []) × (take fed es ≡ es)

-- One event all of whose actions were executed, and then others.
executed_on :
    (x : Executor) (r r' : Responder) (out : Responder × Result FeedError (Unit {0}))
    {first later later' : List Action}
    → Did x r.calls first (r', ok tt)
    → later ≡ later'
    → Did x r'.calls later out
    → Did x r.calls (first ++ later') out
executed_on x r r' out {first = first} {later' = later'} d e l =
    let here = subst (λ k. Did x k later' out) d.ends.0 (subst (λ k. Did x r'.calls k out) e l) in
    let whole : map (λ (k : Call). k.0) d.done ≡ first =
      sym (append-nil _)
      ∙ ap (λ k. map (λ (c : Call). c.0) d.done ++ k) (sym d.ends.1)
      ∙ d.in_order in
    subst (λ k. Did x r.calls (k ++ later') out) whole
      (Did-after x r.calls d.done later' out d.came_back here)

-- One event: the machine is the one after it, and what was logged is the front of its actions.
record Fed (x : Executor) (e : Event) (r : Responder)
    (out : Responder × Result FeedError (Unit {0})) : Type 0 where
  unfed : List Action
  after : out.0.machine ≡ (handle r.machine e).0
  front : actions_in out.0.log ++ unfed ≡ actions_in r.log ++ returned (handle r.machine e).1
  whole : out.1 ≡ ok tt → unfed ≡ []
  did : Did x r.calls (returned (handle r.machine e).1) out

respond-Fed :
    (x : Executor) (e : Event) (r : Responder) (h : Machine × Result MachineError (List Action))
    → handle r.machine e ≡ h
    → Fed x e r (respond x e r h)
unfolding respond actions_in
respond-Fed x e r (m, ok actions) eq =
    let d =
      dispatch_all-Dispatched x actions
        (record r { machine = m; aborted = if is_aborted m.stage then true else r.aborted }) in
    record {
      unfed = d.undone;
      after = d.machine_kept ∙ sym (ap (λ h. h.0) eq);
      front = d.done_first ∙ sym (ap (λ h. actions_in r.log ++ returned h.1) eq);
      whole = d.all_done;
      did =
          subst (λ k. Did x r.calls (returned k.1) (respond x e r (m, ok actions))) (sym eq) d.did;
    }
respond-Fed x e r (m, err why) eq = record {
  unfed = [];
  after = sym (ap (λ h. h.0) eq);
  front =
      ap (λ l. l ++ [])
        (actions_in_append r.log (refused e why ∷ []) ∙ append-nil (actions_in r.log))
      ∙ sym (ap (λ h. actions_in r.log ++ returned h.1) eq);
  whole = λ _. refl;
  did =
      subst (λ k. Did x r.calls (returned k.1) (respond x e r (m, err why))) (sym eq)
        (none_done x r [] (respond x e r (m, err why)) (refl, refl));
}

feed-Fed : (x : Executor) (r : Responder) (e : Event) → Fed x e r (feed x r e)
unfolding feed
feed-Fed x r e = respond-Fed x e r (handle r.machine e) refl

stopped_here :
    (x : Executor) (e : Event) (es : List Event) (r r' : Responder) (why : FeedError)
    → Fed x e r (r', err why)
    → Ran x r.machine r.log r.calls (e ∷ es) (r', err why)
unfolding run
stopped_here x e es r r' why h = record {
  fed = 1;
  unlogged = h.unfed;
  at_machine = h.after;
  in_order =
      h.front
      ∙ ap (λ l. actions_in r.log ++ l) (sym (append-nil (returned (handle r.machine e).1)));
  executed =
      subst (λ l. Did x r.calls l (r', err why))
        (sym (append-nil (returned (handle r.machine e).1))) h.did;
  to_the_end = λ e. absurd (grind arith);
}

goes_on :
    (x : Executor) (e : Event) (es : List Event) (r r' : Responder)
    (out : Responder × Result FeedError (Unit {0}))
    → Fed x e r (r', ok tt)
    → Ran x r'.machine r'.log r'.calls es out
    → Ran x r.machine r.log r.calls (e ∷ es) out
unfolding run
goes_on x e es r r' out h later =
    let acts : List Action = returned (handle r.machine e).1 in
    let before : actions_in r'.log ≡ actions_in r.log ++ acts =
      sym (append-nil (actions_in r'.log))
      ∙ ap (λ l. actions_in r'.log ++ l) (sym (h.whole refl))
      ∙ h.front in
    record {
      fed = suc later.fed;
      unlogged = later.unlogged;
      at_machine = later.at_machine ∙ ap (λ m. (run m (take later.fed es)).0) h.after;
      in_order =
          later.in_order
          ∙ ap (λ l. l ++ (run r'.machine (take later.fed es)).1) before
          ∙ ap (λ m. (actions_in r.log ++ acts) ++ (run m (take later.fed es)).1) h.after
          ∙ append_assoc (actions_in r.log) acts _;
      executed =
          executed_on x r r' out h.did (ap (λ m. (run m (take later.fed es)).1) h.after)
            later.executed;
      to_the_end = λ e'. let ends = later.to_the_end e' in (ends.0, ap (λ l. e ∷ l) ends.1);
    }

-- However the executor behaves, driving the responder with a list of events is running the machine with
-- the events that were fed: the machine is the same, and the calls of the executor that are made and
-- come back are of the machine's actions, in order and each once, up to the end or to what threw: an
-- event that the machine refused, an action without a function, which is not called, or one whose call
-- was made and threw. The log lists the same actions in the same order. If nothing throws, all the
-- events are fed and all their actions executed.
pub drive-Ran :
    (x : Executor) (es : List Event) (r : Responder)
    → Ran x r.machine r.log r.calls es (drive x r es)
unfolding drive run
drive-Ran x [] r = record {
  fed = 0;
  unlogged = [];
  at_machine = refl;
  in_order = refl;
  executed = none_done x r [] (r, ok tt) (refl, refl);
  to_the_end = λ _. (refl, refl);
}
drive-Ran x (e ∷ es) r = by_result (feed x r e) (feed-Fed x r e) (drive-Ran x es (feed x r e).0)
  where
    by_result :
        (out : Responder × Result FeedError (Unit {0}))
        → Fed x e r out
        → Ran x out.0.machine out.0.log out.0.calls es (drive x out.0 es)
        → Ran x r.machine r.log r.calls (e ∷ es) (after_feed out (drive x out.0 es))
    by_result (r', ok u) h later = goes_on x e es r r' _ h later
    by_result (r', err why) h later = stopped_here x e es r r' why h
