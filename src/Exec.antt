-- ===== src/Exec.antt =====
-- Methods that mutate an object and may raise. What was written before a raise stays written, so
-- the state comes back beside the exception too.
use a2a_events_python.Common.{◌≡◌, refl}
use a2a_events_python.Errors.{Exn, Result, ok, raise}

abbrev pub Exec {ℓ} : Type ℓ → Type ℓ → Type ℓ
Exec S A = S → Result A × S

module _ {ℓ} {S A : Type ℓ} where
  abbrev pub pure : A → Exec S A
  pure a s = (ok a, s)

  abbrev pub throw : Exn → Exec S A
  throw e s = (raise e, s)

  -- a call that reads and writes no state
  abbrev pub lift : Result A → Exec S A
  lift r s = (r, s)

  abbrev pub gets : (S → A) → Exec S A
  gets f s = (ok (f s), s)

abbrev pub modify : {S : Type 0} → (S → S) → Exec S (Unit {0})
modify f s = (ok tt, f s)

module _ {ℓ} {S A B : Type ℓ} where
  abbrev pub continue : (A → Exec S B) → Result A × S → Result B × S
  continue f (ok a, s) = f a s
  continue f (raise e, s) = (raise e, s)

infixl 10 ◌>>=◌ ◌>>◌
abbrev pub ◌>>=◌ {ℓ} : {S A B : Type ℓ} → Exec S A → (A → Exec S B) → Exec S B
◌>>=◌ m f s = continue f (m s)

abbrev pub ◌>>◌ : {S B : Type 0} → Exec S (Unit {0}) → Exec S B → Exec S B
m >> k = m >>= λ _. k

-- What a chain that returns did: its first part returned, and the rest from there.
pub bind_ok {ℓ} :
    {S : Type ℓ} {A B : Type ℓ} (m : Exec S A) (f : A → Exec S B) (s : S) (b : B) (s' : S)
    → (m >>= f) s ≡ (ok b, s')
    → (a : A) × (t : S) × (m s ≡ (ok a, t)) × (f a t ≡ (ok b, s'))
bind_ok {S = S} {A = A} {B = B} m f s b s' h = go (m s).0 (m s).1 refl h
  where
    go :
        (x : Result A) (t : S)
        → m s ≡ (x, t)
        → continue f (x, t) ≡ (ok b, s')
        → (a : A) × (u : S) × (m s ≡ (ok a, u)) × (f a u ≡ (ok b, s'))
    go (ok a) t e k = (a, t, e, k)
    go (raise r) t e k = absurd (cc)

-- Two chains with the same first part agree if what follows its return does.
pub bind_same {ℓ} :
    {S : Type ℓ} {A B : Type ℓ} (m : Exec S A) (f g : A → Exec S B) (s : S)
    → ((a : A) (t : S) → m s ≡ (ok a, t) → f a t ≡ g a t)
    → (m >>= f) s ≡ (m >>= g) s
bind_same {S = S} {A = A} m f g s h = go (m s).0 (m s).1 refl
  where
    go : (x : Result A) (t : S) → m s ≡ (x, t) → continue f (x, t) ≡ continue g (x, t)
    go (ok a) t e = h a t e
    go (raise r) t e = refl
