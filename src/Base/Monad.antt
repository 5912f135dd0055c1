-- ===== src/Base/Monad.antt =====
-- Actions of a service: they change a state and throw. What was written before a throw stays
-- written, unless a transaction rolls it back.
use mathlib.Core.Logic.{◌⊎◌, inl, inr}
use mathlib.Core.Path.{◌≡◌, refl}
use mathlib.Core.Option.{Option, none, some}
use mathlib.Core.Bool.{Bool, true, false}
use mathlib.Core.List.{List, [], ◌∷◌}
use multi_tenant_project_man.Base.Error.{Failure, app, unique_violation, AppError}

pub data Result (A : Type 0) : Type 0 where
  ok : A → Result A
  err : Failure → Result A

pub Result-cases :
    {A : Type 0} (r : Result A) → ((a : A) × (r ≡ ok a)) ⊎ ((e : Failure) × (r ≡ err e))
Result-cases (ok a) = inl (a, refl)
Result-cases (err e) = inr (e, refl)

abbrev pub Action : Type 0 → Type 0 → Type 0
Action S A = S → Result A × S

module _ {S : Type 0} where
  abbrev pub pure : {A : Type 0} → A → Action S A
  pure a s = (ok a, s)

  abbrev pub throw : {A : Type 0} → AppError → Action S A
  throw e s = (err (app e), s)

  abbrev pub raise : {A : Type 0} → Failure → Action S A
  raise e s = (err e, s)

  -- What follows a step that ended with this result in this state.
  abbrev pub continue : {A B : Type 0} → Result A → (A → Action S B) → S → Result B × S
  continue (ok a) f s = f a s
  continue (err e) f s = (err e, s)

  infixl 5 ◌>>=◌ ◌>>◌
  abbrev pub ◌>>=◌ : {A B : Type 0} → Action S A → (A → Action S B) → Action S B
  ◌>>=◌ m f s = let r = m s in continue r.0 f r.1

  abbrev pub ◌>>◌ : {A B : Type 0} → Action S A → Action S B → Action S B
  ◌>>◌ m k = m >>= λ _. k

  abbrev pub gets : {A : Type 0} → (S → A) → Action S A
  gets f s = (ok (f s), s)

  abbrev pub modify : (S → S) → Action S (Unit {0})
  modify f s = (ok tt, f s)

  -- `if (test) throw e;`
  abbrev pub throw_if : Bool → AppError → Action S (Unit {0})
  throw_if true e = throw e
  throw_if false e = pure tt

  -- `if (!value) throw e;`
  abbrev pub require : {A : Type 0} → Option A → AppError → Action S A
  require none e = throw e
  require (some a) e = pure a

  -- `for (const x of xs) await f(x);`
  abbrev pub for_each : {A : Type 0} → List A → (A → Action S (Unit {0})) → Action S (Unit {0})
  for_each [] f = pure tt
  for_each (x ∷ xs) f = f x >> for_each xs f

  -- `if (test) await step;`
  abbrev pub when : Bool → Action S (Unit {0}) → Action S (Unit {0})
  when true m = m
  when false m = pure tt

  -- prisma.$transaction: a throw brings back the state from before.
  abbrev pub roll_back : {A : Type 0} → S → Result A × S → Result A × S
  roll_back s (ok a, t) = (ok a, t)
  roll_back s (err e, t) = (err e, s)

  abbrev pub transaction : {A : Type 0} → Action S A → Action S A
  transaction m s = roll_back s (m s)

  abbrev pub rethrow : {A : Type 0} → Result A → AppError → S → Result A × S
  rethrow (ok a) e t = (ok a, t)
  rethrow (err unique_violation) e t = (err (app e), t)
  rethrow (err f) e t = (err f, t)

  -- `catch (err) { if (isPrismaUniqueViolation(err)) throw e; throw err; }`
  abbrev pub catch_unique : {A : Type 0} → Action S A → AppError → Action S A
  catch_unique m e s = let r = m s in rethrow r.0 e r.1

  -- A chain that succeeded had a first step that succeeded.
  pub bind_ok :
      {A B : Type 0} (r : Result A) (f : A → Action S B) (t : S) (b : B)
      → (continue r f t).0 ≡ ok b
      → (a : A) × (r ≡ ok a) × ((f a t).0 ≡ ok b)
  bind_ok (ok a) f t b h = (a, refl, h)
  bind_ok (err e) f t b h = absurd cc

  pub throw_if_ok : (b : Bool) (e : AppError) (s : S) → (throw_if b e s).0 ≡ ok tt → b ≡ false
  throw_if_ok true e s h = absurd cc
  throw_if_ok false e s h = refl
