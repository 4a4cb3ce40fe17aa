-- ===== src/Custody/Calls.antt =====
-- The promises of web/custody.js: each call posts a message under a new number, and the reply with that
-- number settles it. The wallet of web/wallet.js has the same lines.
use near_instant.Common.{
  ℕ, ◌+◌, ◌≤◌, ◌≡◌, refl, ap, Bool, true, false, ◌||◌, List, [], ◌∷◌, ◌==◌, ==_iff, if◌then◌else◌,
  Bool-cases, inl, inr, arith,
}
use near_instant.Custody.{Reply}

-- `seq`, the numbers in `pending`, and what was settled, the latest first.
pub record Page : Type 0 where
  pub seq : ℕ
  pub pending : List ℕ
  pub settled : List (ℕ × Reply)

abbrev pub fresh_page : Page
fresh_page = record { seq = 0; pending = []; settled = [] }

abbrev pub holds : ℕ → List ℕ → Bool
holds i [] = false
holds i (j ∷ js) = (i == j) || holds i js

-- `pending.delete`
unfoldable pub remove : ℕ → List ℕ → List ℕ
remove i [] = []
remove i (j ∷ js) = let rest = remove i js in if i == j then rest else j ∷ rest

-- `call`, and `onmessage`
unfoldable pub call : Page → Page
call p = record p { seq = p.seq + 1; pending = (p.seq + 1) ∷ p.pending }

unfoldable pub on_message : Page → ℕ → Reply → Page
unfolding remove
on_message p id r =
    if holds id p.pending
    then record p { pending = remove id p.pending; settled = (id, r) ∷ p.settled }
    else p

pub data Step : Type 0 where
  calls : Step
  arrives : ℕ → Reply → Step

unfoldable pub steps : Page → List Step → Page
unfolding call on_message
steps p [] = p
steps p (calls ∷ ss) = steps (call p) ss
steps p (arrives id r ∷ ss) = steps (on_message p id r) ss

abbrev pub is_settled : ℕ → List (ℕ × Reply) → Bool
is_settled i [] = false
is_settled i ((j, r) ∷ rest) = (i == j) || is_settled i rest

-- No promise is settled twice.
abbrev pub SettledOnce : List (ℕ × Reply) → Type 0
SettledOnce [] = Unit {0}
SettledOnce ((i, r) ∷ rest) = (is_settled i rest ≡ false) × SettledOnce rest

-- Numbers of waiting and of settled calls were given out, no call is both, and none is settled twice.
pub record IsTidy (p : Page) : Type 0 where
  pub waiting : (i : ℕ) → holds i p.pending ≡ true → (i ≤ p.seq) × (is_settled i p.settled ≡ false)
  pub given : (i : ℕ) → is_settled i p.settled ≡ true → i ≤ p.seq
  pub once : SettledOnce p.settled

remove_absent : (i : ℕ) (js : List ℕ) → holds i (remove i js) ≡ false
unfolding remove
remove_absent i [] = refl
remove_absent i (j ∷ js) = ground (arith, remove_absent i js)

remove_held : (i k : ℕ) (js : List ℕ) → holds k (remove i js) ≡ true → holds k js ≡ true
unfolding remove
remove_held i k [] h = h
remove_held i k (j ∷ js) h = ground (arith, remove_held i k js)

-- A number that waits after a call was given out, and was not settled.
call_waiting :
    (p : Page) (i : ℕ)
    → IsTidy p
    → holds i ((p.seq + 1) ∷ p.pending) ≡ true
    → (i ≤ p.seq + 1) × (is_settled i p.settled ≡ false)
call_waiting p i t h = elim (Bool-cases (is_settled i p.settled)) [
  | inl settled ↦
      let le = t.given i settled in
      let waits : holds i p.pending ≡ true = ground arith in
      absurd (let un = (t.waiting i waits).1 in ground arith)
  | inr unsettled ↦ elim (Bool-cases (holds i p.pending)) [
    | inl waits ↦ let le = (t.waiting i waits).0 in (omega arith, unsettled)
    | inr gone ↦ (ground arith, unsettled)
  ]
]

call-IsTidy : (p : Page) → IsTidy p → IsTidy (call p)
unfolding call
call-IsTidy p t = record {
  waiting = λ i h. call_waiting p i t h;
  given = λ i h. let le = t.given i h in omega arith;
  once = t.once;
}

-- The page after a reply to a call that waits.
abbrev settle : Page → ℕ → Reply → Page
settle p id r = record p { pending = remove id p.pending; settled = (id, r) ∷ p.settled }

settle_waiting :
    (p : Page) (id : ℕ) (r : Reply) (i : ℕ)
    → IsTidy p
    → holds i (remove id p.pending) ≡ true
    → (i ≤ p.seq) × (is_settled i ((id, r) ∷ p.settled) ≡ false)
settle_waiting p id r i t h =
    let was = t.waiting i (remove_held id i p.pending h) in
    let absent = remove_absent id p.pending in
    elim (Bool-cases (i == id)) [
      | inl same ↦
          let here = ap (λ k. holds k (remove id p.pending)) ((==_iff i id).0 same) in
          absurd (ground arith)
      | inr other ↦ (was.0, ground (arith, was.1))
    ]

settle-IsTidy :
    (p : Page) (id : ℕ) (r : Reply) → holds id p.pending ≡ true → IsTidy p → IsTidy (settle p id r)
settle-IsTidy p id r known t = record {
  waiting = λ i h. settle_waiting p id r i t h;
  given = λ i h. elim (Bool-cases (i == id)) [
    | inl same ↦ let equal = (==_iff i id).0 same in let le = (t.waiting id known).0 in omega arith
    | inr other ↦ t.given i (ground (arith, h))
  ];
  once = ((t.waiting id known).1, t.once);
}

on_message-IsTidy : (p : Page) (id : ℕ) (r : Reply) → IsTidy p → IsTidy (on_message p id r)
unfolding on_message
on_message-IsTidy p id r t = elim (Bool-cases (holds id p.pending)) [
  | inr unknown ↦ rw unknown t
  | inl known ↦ rw known (settle-IsTidy p id r known t)
]

run_IsTidy : (ss : List Step) (p : Page) → IsTidy p → IsTidy (steps p ss)
unfolding steps
run_IsTidy [] p t = t
run_IsTidy (calls ∷ ss) p t = run_IsTidy ss (call p) (call-IsTidy p t)
run_IsTidy (arrives id r ∷ ss) p t = run_IsTidy ss (on_message p id r) (on_message-IsTidy p id r t)

-- Whatever replies arrive, and in any order, from a fresh page no promise is settled twice, none that is
-- settled still waits, and every number that waits or is settled was given out by a call.
pub steps-IsTidy : (ss : List Step) → IsTidy (steps fresh_page ss)
steps-IsTidy ss = run_IsTidy ss fresh_page (record {
  waiting = λ i h. absurd (ground arith);
  given = λ i h. absurd (ground arith);
  once = tt;
})
