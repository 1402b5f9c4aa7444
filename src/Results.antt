-- ===== src/Results.antt =====
-- Functions that may throw and change no state: `do` blocks on `Result`.
use gnuradio4_control_plane.Prelude.{◌≡◌, ◌≢◌, refl, ap, subst}
use gnuradio4_control_plane.Errors.{Exception, Result, ok, err}

module _ {ℓ} {A : Type ℓ} where
  abbrev pub give : A → Result A
  give = ok

  abbrev pub refuse : Exception → Result A
  refuse = err

module _ {ℓ} {A B : Type ℓ} where
  infixl 10 ◌>>=◌ ◌>>◌
  abbrev pub ◌>>=◌ : Result A → (A → Result B) → Result B
  ok a >>= f = f a
  err e >>= f = err e

  abbrev pub ◌>>◌ : Result A → Result B → Result B
  m >> n = m >>= λ _. n

abbrev Failed {ℓ} : {A : Type ℓ} → Result A → Type 0
Failed (ok a) = ⊥
Failed (err e) = Unit

pub err≢ok {ℓ} : {A : Type ℓ} (e : Exception) (a : A) → err e ≢ ok a
err≢ok e a h = subst Failed h tt

abbrev value_or {ℓ} : {A : Type ℓ} → A → Result A → A
value_or otherwise (ok a) = a
value_or otherwise (err e) = otherwise

pub ok-injective {ℓ} : {A : Type ℓ} (a b : A) → ok a ≡ ok b → a ≡ b
ok-injective a b h = ap (value_or a) h

-- A value comes from both steps.
pub bind-ok {ℓ} :
    {A B : Type ℓ} (m : Result A) (f : A → Result B) (b : B)
    → (m >>= f) ≡ ok b
    → (a : A) × (m ≡ ok a) × (f a ≡ ok b)
bind-ok (ok a) f b h = (a, refl, h)
bind-ok (err e) f b h = absurd (err≢ok e b h)
