-- ===== src/Tests/Beacons.antt =====
-- Runs of web/beacon.js: three nodes, of which one lies and one is overloaded.
use near_instant.Common.{
  ℕ, zero, suc, ◌≡◌, ◌≢◌, refl, true, List, [], ◌∷◌, some, ok, arith, take, get_elem?,
}
use near_instant.Beacon.{
  Info, Vote, Reply, unreachable, found, other_answer, same_key, vote_of, find_key, agree_from,
  two_agree, poll_nodes, account_info_quorum,
}
use near_instant.Beacon.Quorum.{votes_of, quorum_honest}

abbrev head : Info
head = record { frontier = 9; balance = 100; representative = 3 }

abbrev replies : List Reply
replies =
    found (record { frontier = 9; balance = 50; representative = 3 })
    ∷ other_answer
    ∷ found head
    ∷ unreachable
    ∷ found head
    ∷ []

replies_run : account_info_quorum replies ≡ ok (some head)
unfolding account_info_quorum poll_nodes vote_of two_agree agree_from find_key same_key
replies_run = refl

honest :
    (i : ℕ) (w : Vote)
    → i ≢ 0
    → get_elem? (votes_of (take 6 replies)) i ≡ some w
    → same_key w (some head) ≡ true
unfolding vote_of same_key
honest zero w ne e = absurd (ne refl)
honest (suc zero) w ne e = let same : some head ≡ w = ground arith in rw (← same) refl
honest (suc (suc zero)) w ne e = let same : some head ≡ w = ground arith in rw (← same) refl
honest (suc (suc (suc i))) w ne e = absurd (ground arith)

quorum_honest_example : same_key (some head) (some head) ≡ true
quorum_honest_example =
    quorum_honest replies (some head) (some head) 0 (omega arith) honest replies_run
