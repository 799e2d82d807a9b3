-- ===== src/Base/Outcome.antt =====
-- How a call ends: with a value, by `abort()` or `exit(1)`, in undefined behaviour, such as an access
-- outside the mapped bytes, or not at all, as it waits for another thread or goes round for ever.

pub data Run {ℓ} (A : Type ℓ) : Type ℓ where
  ok : A → Run A
  aborted : Run A
  undefined : Run A
  blocked : Run A

infixl 5 ◌>>=◌
abbrev pub ◌>>=◌ {ℓ κ} : {A : Type ℓ} {B : Type κ} → Run A → (A → Run B) → Run B
ok a >>= f = f a
aborted >>= f = aborted
undefined >>= f = undefined
blocked >>= f = blocked
