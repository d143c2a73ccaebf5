-- ===== src/Exec.antt =====
-- Code that changes a state and may throw. What was written before a throw stays written. A failed
-- assertion, or an exception that leaves a noexcept function, ends the process.
use occase.Base.{Bool, true, false, Option, none, some}

pub data Result {ℓ} (A : Type ℓ) : Type ℓ where
  ok : A → Result A
  thrown : Result A
  aborted : Result A

abbrev pub Exec : Type 0 → Type 0 → Type 0
Exec S A = S → Result A × S

abbrev pub pure : {S A : Type 0} → A → Exec S A
pure a s = (ok a, s)

-- An exception where there is no value.
abbrev pub or_throw : {S A : Type 0} → Option A → Exec S A
or_throw none s = (thrown, s)
or_throw (some a) s = (ok a, s)

abbrev pub modify : {S : Type 0} → (S → S) → Exec S (Unit {0})
modify f s = (ok tt, f s)

abbrev pub gets : {S A : Type 0} → (S → A) → Exec S A
gets f s = (ok (f s), s)

abbrev pub assert : {S : Type 0} → Bool → Exec S (Unit {0})
assert true s = (ok tt, s)
assert false s = (aborted, s)

abbrev pub continue : {S A B : Type 0} → Result A → S → (A → Exec S B) → Result B × S
continue (ok a) s f = f a s
continue thrown s f = (thrown, s)
continue aborted s f = (aborted, s)

infixl 5 ◌>>=◌ ◌>>◌
abbrev pub ◌>>=◌ : {S A B : Type 0} → Exec S A → (A → Exec S B) → Exec S B
◌>>=◌ m f s = continue (m s).0 (m s).1 f

abbrev pub ◌>>◌ : {S A B : Type 0} → Exec S A → Exec S B → Exec S B
m >> k = m >>= λ _. k

-- `catch (std::exception const&)` with a value for the handler's end.
abbrev pub caught : {S A : Type 0} → Result A → S → A → Result A × S
caught (ok a) s h = (ok a, s)
caught thrown s h = (ok h, s)
caught aborted s h = (aborted, s)

abbrev pub catching : {S A : Type 0} → A → Exec S A → Exec S A
catching h m s = caught (m s).0 (m s).1 h

-- An exception that leaves a noexcept function calls std::terminate.
abbrev pub ended : {S A : Type 0} → Result A → S → Result A × S
ended (ok a) s = (ok a, s)
ended thrown s = (aborted, s)
ended aborted s = (aborted, s)

abbrev pub noexcept : {S A : Type 0} → Exec S A → Exec S A
noexcept m s = ended (m s).0 (m s).1
