-- ===== src/Base/Handler.antt =====
-- A request handler: it reads and writes a state, and ends with a value or with an HTTP exception.
-- The state comes back after an exception too, since what was written stays written.
use Prim.Native.String.{String}
use mathlib.Core.Path.{◌≡◌, refl}
use mathlib.Core.Logic.{◌⊎◌, inl, inr}
use mathlib.Core.Bool.{Bool}
use mathlib.Core.Option.{Option, none, some}
use prop_chain_back_end.Base.Tests.{if◌then◌else◌}

-- The exceptions of `@nestjs/common` that the modelled code throws, with their messages.
pub data HttpException : Type 0 where
  not_found : String → HttpException
  bad_request : String → HttpException
  forbidden : String → HttpException
  conflict : String → HttpException
  unauthorized : String → HttpException
  service_unavailable : String → HttpException
  too_many_requests : String → HttpException

pub data Result (A : Type 0) : Type 0 where
  ok : A → Result A
  err : HttpException → Result A

abbrev pub Action : Type 0 → Type 0 → Type 0
Action S A = S → Result A × S

module _ {S A : Type 0} where
  abbrev pub pure : A → Action S A
  pure a s = (ok a, s)

  abbrev pub throw : HttpException → Action S A
  throw e s = (err e, s)

  abbrev pub gets : (S → A) → Action S A
  gets f s = (ok (f s), s)

  -- a call of a service that keeps no state here
  abbrev pub from_result : Result A → Action S A
  from_result r s = (r, s)

  -- a call that always returns
  abbrev pub runs : (S → A × S) → Action S A
  runs f s = (ok (f s).0, (f s).1)

  -- `if (!row) throw …`
  abbrev pub or_throw : Option A → HttpException → Action S A
  or_throw none e = throw e
  or_throw (some a) e = pure a

module _ {S : Type 0} where
  -- `if (test) throw …`
  abbrev pub throw_if : Bool → HttpException → Action S (Unit {0})
  throw_if b e s = (if b then err e else ok tt, s)

  abbrev pub modify : (S → S) → Action S (Unit {0})
  modify f s = (ok tt, f s)

infixl 5 ◌>>=◌ ◌>>◌
abbrev pub ◌>>=◌ : {S A B : Type 0} → Action S A → (A → Action S B) → Action S B
◌>>=◌ m f s = let (r, s') = m s in elim r [ ok a ↦ f a s' | err e ↦ throw e s' ]

abbrev pub ◌>>◌ : {S A B : Type 0} → Action S A → Action S B → Action S B
m >> k = m >>= λ _. k

-- A call of a service that keeps its state in a part of the caller's.
abbrev pub within : {S T A : Type 0} → (S → T) → (T → S → S) → Action T A → Action S A
within part put m s = let (r, t) = m (part s) in (r, put t s)

-- The call returned without an exception.
abbrev pub Returns : {S A : Type 0} → Result A × S → Type 0
Returns {A} (r, s) = (a : A) × (r ≡ ok a)

pub Result-cases :
    {A : Type 0} (r : Result A) → ((a : A) × (r ≡ ok a)) ⊎ ((e : HttpException) × (r ≡ err e))
Result-cases (ok a) = inl (a, refl)
Result-cases (err e) = inr (e, refl)
