-- ===== src/Settlement/Locks.antt =====
-- The ways in which B's transfer to the joint address ends. `transfers` counts the calls of the wallet
-- that came back: a call that throws may have sent all the same, which the driver cannot see.
use near_instant.Common.{
  ℕ, suc, ◌+◌, ◌≡◌, refl, Bool, true, false, [], ◌∷◌, ◌⊎◌, inl, inr, some, if◌then◌else◌,
}
use near_instant.Settlement.Types.{
  World, sent, Answer, got, threw, crashed, Run, Effect, checked, funds, funded, locks, locked,
  shares, opens, claims, refunds, sweeps, call_failed,
}
use near_instant.Settlement.Exec.{
  returns, raises, dies, continue, outcome, caught, pure, call, attempt, puts, tell, ◌>>=◌,
}
use near_instant.Settlement.Exec.Rules.{Trace}
use near_instant.Settlement.SideB.{read_height, send_lock}

-- The effect is a call for the transfer that came back.
is_locked : Effect → Bool
is_locked locked = true
is_locked (checked b) = false
is_locked funds = false
is_locked funded = false
is_locked locks = false
is_locked (shares r n) = false
is_locked (opens n) = false
is_locked (claims n) = false
is_locked (refunds n) = false
is_locked (sweeps n) = false

unfoldable pub transfers : Trace → ℕ
unfolding is_locked
transfers [] = 0
transfers ((e, c) ∷ t) = let rest = transfers t in if is_locked e then suc rest else rest

module _ (w : World) (s : Run) where
  -- The transfer came back, and the entry has its transaction.
  abbrev pub Recorded : Type 0
  Recorded =
      ((send_lock w s).0 ≡ returns tt)
      × ((tx : ℕ) × (height : ℕ) × ((w.xmr_send s.tick ≡ got tx)
            × (((send_lock w s).1.core ≡ record s.core { lock = some (sent tx height) })
                × (transfers (send_lock w s).1.trace ≡ suc (transfers s.trace)))))

  -- The call of the wallet threw, and nothing is on record.
  abbrev pub Failed : Type 0
  Failed =
      ((send_lock w s).0 ≡ raises call_failed)
      × (((send_lock w s).1.core ≡ s.core)
          × ((transfers (send_lock w s).1.trace ≡ transfers s.trace) × (w.xmr_send s.tick ≡ threw)))

  -- The process ended in the call of the wallet.
  abbrev pub Interrupted : Type 0
  Interrupted =
      ((send_lock w s).0 ≡ dies)
      × (((send_lock w s).1.core ≡ s.core)
          × ((transfers (send_lock w s).1.trace ≡ transfers s.trace)
              × (w.xmr_send s.tick ≡ crashed)))

  -- The transfer came back, and the process ended in the read of the height after it: the transfer is
  -- not on record.
  abbrev pub Lost : Type 0
  Lost =
      ((send_lock w s).0 ≡ dies)
      × (((send_lock w s).1.core ≡ s.core)
          × ((transfers (send_lock w s).1.trace ≡ suc (transfers s.trace))
              × (((tx : ℕ) × (w.xmr_send s.tick ≡ got tx))
                  × ((w.connect (s.tick + 1) ≡ crashed) ⊎ (w.height (s.tick + 1 + 1) ≡ crashed)))))

  by_answers :
      (a : Answer ℕ) (b : Answer (Unit {0})) (c : Answer ℕ)
      → w.xmr_send s.tick ≡ a
      → w.connect (s.tick + 1) ≡ b
      → w.height (s.tick + 1 + 1) ≡ c
      → Recorded ⊎ (Failed ⊎ (Interrupted ⊎ Lost))
  unfolding send_lock read_height ◌>>=◌ continue call outcome attempt caught tell puts pure
      transfers is_locked
  by_answers threw b c ea eb ec = inr (inl (rw ea, (rw ea, (rw ea, ea))))
  by_answers crashed b c ea eb ec = inr (inr (inl (rw ea, (rw ea, (rw ea, ea)))))
  by_answers (got tx) threw c ea eb ec =
      inl (rw (ea, eb), (tx, 0, (ea, (rw (ea, eb), rw (ea, eb)))))
  by_answers (got tx) crashed c ea eb ec =
      inr (inr (inr (rw (ea, eb), (rw (ea, eb), (rw (ea, eb), ((tx, ea), inl eb))))))
  by_answers (got tx) (got u) threw ea eb ec =
      inl (rw (ea, eb, ec), (tx, 0, (ea, (rw (ea, eb, ec), rw (ea, eb, ec)))))
  by_answers (got tx) (got u) crashed ea eb ec =
      inr (inr (inr (rw (ea, eb, ec), (rw (ea, eb, ec), (rw (ea, eb, ec), ((tx, ea), inr ec))))))
  by_answers (got tx) (got u) (got h) ea eb ec =
      inl (rw (ea, eb, ec), (tx, h, (ea, (rw (ea, eb, ec), rw (ea, eb, ec)))))

-- The lock ends in one of four ways. It returns: the wallet's call came back once, and the store has
-- its transaction as a sent lock and is otherwise as before. It throws: the wallet's call threw, and the
-- store is as before; the wallet may still have sent. The process ends in the wallet's call: the store
-- is as before. The process ends in the read of the height, after the wallet's call came back: the store
-- is as before too, so that the transfer is not on record.
pub send_lock-ends :
    (w : World) (s : Run) → Recorded w s ⊎ (Failed w s ⊎ (Interrupted w s ⊎ Lost w s))
send_lock-ends w s = by_answers w s _ _ _ refl refl refl
