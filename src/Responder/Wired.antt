-- ===== src/Responder/Wired.antt =====
-- The executor of a responder that could be made.
use near_instant.Common.{
  Option-cases, inl, inr, arith, ℕ, ◌≡◌, ◌≢◌, refl, ap, Bool, true, false, not, List, [], ◌∷◌, ◌++◌,
  Option, none, some, Result, ok, err, length, if◌then◌else◌,
}
use near_instant.Machine.{
  new, Machine, Role, Event, Action, MachineError, lock_xmr_chunk, deliver_presign, broadcast_guard,
  complete_and_broadcast_claim, sweep_xmr, trigger_refund_backstop, return_bonds, handle,
}
use near_instant.Responder.{
  after_feed, unless_missing, Executor, acted, Responder, FeedError, missing, failed, ActionType,
  action_types, type_of, first_missing, make_responder, dispatch_all, respond, feed, drive,
}

first_missing-none :
    (has : ActionType → Bool) (t : ActionType) (ts : List ActionType)
    → first_missing has (t ∷ ts) ≡ none
    → (has t ≡ true) × (first_missing has ts ≡ none)
unfolding first_missing
first_missing-none has t ts e = by_test (has t) e
  where
    by_test :
        (b : Bool)
        → (if not b then some t else first_missing has ts) ≡ none
        → (b ≡ true) × (first_missing has ts ≡ none)
    by_test true e = (refl, e)
    by_test false e = absurd (grind arith)

-- Every action's type has a function.
IsWired : Executor → Type 0
IsWired x = (a : Action) → x.has (type_of a) ≡ true

none_missing : (x : Executor) → first_missing x.has action_types ≡ none → IsWired x
unfolding IsWired
none_missing x e a =
    let t1 = first_missing-none x.has _ _ e in
    let t2 = first_missing-none x.has _ _ t1.1 in
    let t3 = first_missing-none x.has _ _ t2.1 in
    let t4 = first_missing-none x.has _ _ t3.1 in
    let t5 = first_missing-none x.has _ _ t4.1 in
    let t6 = first_missing-none x.has _ _ t5.1 in
    let t7 = first_missing-none x.has _ _ t6.1 in
    let t8 = first_missing-none x.has _ _ t7.1 in
    elim a as (λ k. x.has (type_of k) ≡ true) [
      | lock_xmr_chunk c amount ↦ t2.0
      | deliver_presign c amount ↦ t3.0
      | broadcast_guard c ↦ t4.0
      | complete_and_broadcast_claim c ↦ t5.0
      | sweep_xmr c ↦ t6.0
      | trigger_refund_backstop c ↦ t8.0
      | return_bonds ↦ t7.0
    ]

-- Not the error of a missing function.
IsOther : Result FeedError (Unit {0}) → Type 0
IsOther r = (a : Action) → r ≢ err (missing a)

dispatch_all-IsOther :
    (x : Executor)
    → IsWired x
    → (acts : List Action) (r : Responder) → IsOther (dispatch_all x acts r).1
unfolding dispatch_all IsOther IsWired
dispatch_all-IsOther x wired [] r a e = absurd (grind arith)
dispatch_all-IsOther x wired (b ∷ acts) r a e =
    by_branch (x.has (type_of b)) (x.works (length r.log) b r.machine) (wired b)
      (dispatch_all-IsOther x wired acts called a) e
  where
    logged : Responder
    logged = record r { log = r.log ++ acted b ∷ [] }

    called : Responder
    called = record logged { calls = r.calls ++ (b, r.machine) ∷ [] }

    by_branch :
        (h c : Bool)
        → h ≡ true
        → (dispatch_all x acts called).1 ≢ err (missing a)
        → (if not h
            then (logged, err (missing b))
            else if c
            then dispatch_all x acts called
            else (called, err (failed b))).1
          ≢ err (missing a)
    by_branch false c hh later e = absurd (ground arith)
    by_branch true true hh later e = later e
    by_branch true false hh later e = absurd (grind arith)

feed-IsOther : (x : Executor) → IsWired x → (r : Responder) (e : Event) → IsOther (feed x r e).1
unfolding feed respond IsOther
feed-IsOther x wired r e = by_result (handle r.machine e)
  where
    by_result :
        (h : Machine × Result MachineError (List Action)) (a : Action)
        → (respond x e r h).1 ≢ err (missing a)
    by_result (m, ok acts) a q = dispatch_all-IsOther x wired acts _ a q
    by_result (m, err why) a q = absurd (grind arith)

drive-IsOther :
    (x : Executor) → IsWired x → (es : List Event) (r : Responder) → IsOther (drive x r es).1
unfolding drive IsOther
drive-IsOther x wired [] r a e = absurd (grind arith)
drive-IsOther x wired (ev ∷ es) r a e =
    by_result (feed x r ev) (feed-IsOther x wired r ev a)
      (drive-IsOther x wired es (feed x r ev).0 a) e
  where
    by_result :
        (out : Responder × Result FeedError (Unit {0}))
        → out.1 ≢ err (missing a)
        → (drive x out.0 es).1 ≢ err (missing a)
        → (after_feed out (drive x out.0 es)).1 ≢ err (missing a)
    by_result (r', ok u) h later = later
    by_result (r', err why) h later = h

make_responder-missing :
    (role : Role) (schedule : List ℕ) (x : Executor) (maturity : Option ℕ) (t : ActionType)
    → first_missing x.has action_types ≡ some t
    → make_responder role schedule x maturity ≡ err t
unfolding make_responder
make_responder-missing role schedule x maturity t e =
    ap
      (λ o.
        unless_missing o
          (record { machine = new role schedule maturity; log = []; calls = []; aborted = false }))
      e

-- A responder that could be made never meets, in any drive, an action that its executor has no function
-- for: a missing function is refused before the swap and not in the middle of it.
pub make_responder-wired :
    (role : Role) (schedule : List ℕ) (x : Executor) (maturity : Option ℕ) (made : Responder)
    → make_responder role schedule x maturity ≡ ok made
    → (es : List Event) (a : Action) → (drive x made es).1 ≢ err (missing a)
unfolding IsOther
make_responder-wired role schedule x maturity made e es a =
    elim (Option-cases (first_missing x.has action_types)) [
      | inl none_left ↦ drive-IsOther x (none_missing x none_left) es made a
      | inr (t, lacks) ↦
          absurd (grind (arith, make_responder-missing role schedule x maturity t lacks))
    ]
