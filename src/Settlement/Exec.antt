-- ===== src/Settlement/Exec.antt =====
-- Actions of a settlement run: they call the world, write the store, and return, throw or die.
pub mod Rules
pub mod Steadiness
pub mod Specs
pub mod Does
use near_instant.Common.{
  ℕ, ◌+◌, Bool, true, false, List, [], ◌∷◌, Option, none, some, if◌then◌else◌,
}
use near_instant.Settlement.Types.{
  Answer, got, threw, crashed, World, Core, Effect, Run, Reason, call_failed,
}

pub data Outcome (A : Type 0) : Type 0 where
  returns : A → Outcome A
  raises : Reason → Outcome A
  dies : Outcome A

abbrev pub Exec : Type 0 → Type 0
Exec A = World → Run → Outcome A × Run

module _ {A : Type 0} where
  unfoldable pub pure : A → Exec A
  pure a w s = (returns a, s)

  unfoldable pub raise : Reason → Exec A
  raise e w s = (raises e, s)

  -- The process ends here.
  unfoldable pub die : Exec A
  die w s = (dies, s)

  -- A function of the wasm modules or an option.
  unfoldable pub asks : (World → A) → Exec A
  asks f w s = (returns (f w), s)

  -- What the store has.
  unfoldable pub gets : (Core → A) → Exec A
  gets f w s = (returns (f s.core), s)

  -- `Date.now()` and the like.
  unfoldable pub reads : (World → ℕ → A) → Exec A
  reads f w s = (returns (f w s.tick), s)

  unfoldable pub outcome : Answer A → Outcome A
  outcome (got a) = returns a
  outcome threw = raises call_failed
  outcome crashed = dies

  -- A call of another system.
  unfoldable pub call : (World → ℕ → Answer A) → Exec A
  unfolding outcome
  call f w s = (outcome (f w s.tick), record s { tick = s.tick + 1 })

  unfoldable pub caught : Outcome A → Outcome (Option A)
  caught (returns a) = returns (some a)
  caught (raises e) = returns none
  caught dies = dies

  -- `try { … } catch (e) {}`
  unfoldable pub attempt : Exec A → Exec (Option A)
  unfolding caught
  attempt m w s = let (r, s') = m w s in (caught r, s')

-- `S.set(…)`
unfoldable pub puts : (Core → Core) → Exec (Unit {0})
puts f w s = (returns tt, record s { core = f s.core })

unfoldable pub tell : Effect → Exec (Unit {0})
tell e w s = (returns tt, record s { trace = (e, s.core) ∷ s.trace })

module _ {A B : Type 0} where
  unfoldable pub continue : Outcome A → (A → Exec B) → Exec B
  continue (returns a) f w s = f a w s
  continue (raises e) f w s = (raises e, s)
  continue dies f w s = (dies, s)

  infixl 10 ◌>>=◌ ◌>>◌
  unfoldable pub ◌>>=◌ : Exec A → (A → Exec B) → Exec B
  unfolding continue
  ◌>>=◌ m f w s = let (r, s') = m w s in continue r f w s'

  -- What is done with a value that may be missing.
  unfoldable pub on_option : Option A → Exec B → (A → Exec B) → Exec B
  on_option none m f = m
  on_option (some a) m f = f a

  abbrev pub ◌>>◌ : Exec A → Exec B → Exec B
  m >> n = m >>= λ _. n

  -- `try { … } catch (e) { … }`, with what goes on after the handler.
  unfoldable pub handle : Outcome A → (A → Exec B) → (Reason → Exec B) → Exec B
  handle (returns a) f h w s = f a w s
  handle (raises e) f h w s = h e w s
  handle dies f h w s = (dies, s)

  unfoldable pub catch : Exec A → (A → Exec B) → (Reason → Exec B) → Exec B
  unfolding handle
  catch m f h w s = let (r, s') = m w s in handle r f h w s'
