-- ===== src/Action.antt =====
-- A service method: it reads and writes the state, and returns a value or throws one of Nest's
-- HTTP exceptions. What was written before a throw stays written, unless it stood in a
-- transaction. The texts of the exceptions are left out.
use south_connect.Prelude.{◌≡◌, ◌⊎◌, refl, inl, inr, Bool, true, false, Option, none, some}

pub data HttpError : Type 0 where
  bad_request unauthorized forbidden not_found conflict gone : HttpError
  service_unavailable internal_error : HttpError

pub data Result (A : Type 0) : Type 0 where
  ok : A → Result A
  err : HttpError → Result A

pub Result-either :
    {A : Type 0} (r : Result A) → ((a : A) × (r ≡ ok a)) ⊎ ((e : HttpError) × (r ≡ err e))
Result-either (ok a) = inl (a, refl)
Result-either (err e) = inr (e, refl)

abbrev pub Action : Type 0 → Type 0 → Type 0
Action S A = S → Result A × S

infixl 5 ◌>>=◌ ◌>>◌
abbrev pub ◌>>=◌ : {S A B : Type 0} → Action S A → (A → Action S B) → Action S B
◌>>=◌ m f s = let (r, t) = m s in elim r [ ok a ↦ f a t | err e ↦ (err e, t) ]

abbrev pub ◌>>◌ : {S A B : Type 0} → Action S A → Action S B → Action S B
m >> k = m >>= λ _. k

module _ {S : Type 0} where
  abbrev pub pure : {A : Type 0} → A → Action S A
  pure a s = (ok a, s)

  abbrev pub throw : {A : Type 0} → HttpError → Action S A
  throw e s = (err e, s)

  abbrev pub gets : {A : Type 0} → (S → A) → Action S A
  gets f s = (ok (f s), s)

  abbrev pub modify : (S → S) → Action S (Unit {0})
  modify f s = (ok tt, f s)

  -- `if (test) throw e`
  abbrev pub throw_if : Bool → HttpError → Action S (Unit {0})
  throw_if true e s = (err e, s)
  throw_if false e s = (ok tt, s)

  -- `if (!value) throw e`
  abbrev pub or_throw : {A : Type 0} → Option A → HttpError → Action S A
  or_throw none e s = (err e, s)
  or_throw (some a) e s = (ok a, s)

  -- `$transaction`: what a throw interrupts is rolled back.
  abbrev pub transaction : {A : Type 0} → Action S A → Action S A
  transaction m s = let (r, t) = m s in elim r [ ok a ↦ (ok a, t) | err e ↦ (err e, s) ]
