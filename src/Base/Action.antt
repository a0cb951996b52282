-- ===== src/Base/Action.antt =====
-- An awaited call that can throw: a value or an error, and the state that it leaves in either case.
use mathlib.Core.Option.{Option, none, some}

pub data Ended (E A : Type 0) : Type 0 where
  done : A → Ended E A
  failed : E → Ended E A

abbrev pub Action : Type 0 → Type 0 → Type 0 → Type 0
Action E S A = S → Ended E A × S

module _ {E S : Type 0} where
  abbrev pub return : {A : Type 0} → A → Action E S A
  return a s = (done a, s)

  abbrev pub raise : {A : Type 0} → E → Action E S A
  raise e s = (failed e, s)

  abbrev pub continue : {A B : Type 0} → (A → Action E S B) → Ended E A × S → Ended E B × S
  continue f (done a, s) = f a s
  continue f (failed e, s) = (failed e, s)

infixl 5 ◌>>=◌ ◌>>◌
abbrev pub ◌>>=◌ : {E S A B : Type 0} → Action E S A → (A → Action E S B) → Action E S B
◌>>=◌ m f s = continue f (m s)

abbrev pub ◌>>◌ : {E S B : Type 0} → Action E S (Unit {0}) → Action E S B → Action E S B
◌>>◌ m k = m >>= λ _. k

module _ {E S : Type 0} where
  -- `try { ... } catch (error) { ... }`
  abbrev pub recover : {A : Type 0} → (E → Action E S A) → Ended E A × S → Ended E A × S
  recover h (done a, s) = (done a, s)
  recover h (failed e, s) = h e s

  abbrev pub catch : {A : Type 0} → Action E S A → (E → Action E S A) → Action E S A
  catch m h s = recover h (m s)

  -- `.catch(() => null)`
  abbrev pub or_null : {A : Type 0} → Ended E A × S → Ended E (Option A) × S
  or_null (done a, s) = (done (some a), s)
  or_null (failed e, s) = (done none, s)

  abbrev pub quiet : {A : Type 0} → Action E S A → Action E S (Option A)
  quiet m s = or_null (m s)

  -- `.catch(() => {})`
  abbrev pub settled : {A : Type 0} → Ended E A × S → Ended E (Unit {0}) × S
  settled (r, s) = (done tt, s)

  abbrev pub ignore : {A : Type 0} → Action E S A → Action E S (Unit {0})
  ignore m s = settled (m s)
