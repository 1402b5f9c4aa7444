-- ===== src/Errors.antt =====
-- The exceptions of the program (app/session_service.hpp, app/block_settings_service.hpp,
-- runtime/block_settings.hpp, catalog/*_provider.hpp), and methods that mutate their objects and
-- may throw: the state comes back beside the exception too, since nothing is rolled back.
use gnuradio4_control_plane.Prelude.{String, ◌≡◌, refl, ◌⊎◌, inl, inr, Option, none, some}

-- One constructor for each class that a handler tells apart. `std_error` is any other
-- `std::exception`, `unknown` is anything that is not one (`catch (...)`).
pub data Exception : Type 0 where
  validation_error not_found_error invalid_state_error runtime_error timeout_error :
      String → Exception
  block_not_found_error reply_timeout_error : String → Exception
  catalog_load_error scheduler_catalog_load_error std_error : String → Exception
  unknown : Exception

-- The text of an exception that `catch (const std::exception& error)` catches; `none` for the rest.
unfoldable pub what : Exception → Option String
what (validation_error text) = some text
what (not_found_error text) = some text
what (invalid_state_error text) = some text
what (runtime_error text) = some text
what (timeout_error text) = some text
what (block_not_found_error text) = some text
what (reply_timeout_error text) = some text
what (catalog_load_error text) = some text
what (scheduler_catalog_load_error text) = some text
what (std_error text) = some text
what unknown = none

pub data Result {ℓ} (A : Type ℓ) : Type ℓ where
  ok : A → Result A
  err : Exception → Result A

pub Result-cases {ℓ} :
    {A : Type ℓ} (r : Result A) → ((a : A) × (r ≡ ok a)) ⊎ ((e : Exception) × (r ≡ err e))
Result-cases (ok a) = inl (a, refl)
Result-cases (err e) = inr (e, refl)

abbrev pub Exec {ℓ} : Type ℓ → Type ℓ → Type ℓ
Exec S A = S → Result A × S

module _ {ℓ} {S A : Type ℓ} where
  abbrev pub pure : A → Exec S A
  pure a s = (ok a, s)

  abbrev pub throw : Exception → Exec S A
  throw e s = (err e, s)

  abbrev pub lift : Result A → Exec S A
  lift r s = (r, s)

module _ {ℓ} {S A B : Type ℓ} where
  abbrev pub continue : Result A → (A → Exec S B) → Exec S B
  continue (ok a) f s = f a s
  continue (err e) f s = (err e, s)

  infixl 10 ◌>>=◌ ◌>>◌
  abbrev pub ◌>>=◌ : Exec S A → (A → Exec S B) → Exec S B
  ◌>>=◌ m f s = continue (m s).0 f (m s).1

  abbrev pub ◌>>◌ : Exec S A → Exec S B → Exec S B
  m >> n = m >>= λ _. n
