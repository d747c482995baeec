-- ===== src/Base/Effect.antt =====
-- Asynchronous methods that change a state and may throw. What was written before a throw stays
-- written, so the state comes back beside the error too.

pub data Result {ℓ} (E A : Type ℓ) : Type ℓ where
  ok : A → Result E A
  err : E → Result E A

abbrev pub Effect {ℓ} : Type ℓ → Type ℓ → Type ℓ → Type ℓ
Effect E S A = S → Result E A × S

module _ {ℓ} {E S A : Type ℓ} where
  unfoldable pub pure : A → Effect E S A
  pure a s = (ok a, s)

  unfoldable pub throw : E → Effect E S A
  throw e s = (err e, s)

  abbrev pub rescue : Result E A × S → (E → Effect E S A) → Result E A × S
  rescue (ok a, s) handler = (ok a, s)
  rescue (err e, s) handler = handler e s

  -- `try { m } catch (e) { handler(e) }`
  unfoldable pub try_catch : Effect E S A → (E → Effect E S A) → Effect E S A
  try_catch m handler s = rescue (m s) handler

module _ {ℓ} {E S A B : Type ℓ} where
  abbrev pub continue : Result E A × S → (A → Effect E S B) → Result E B × S
  continue (ok a, s) f = f a s
  continue (err e, s) f = (err e, s)

  infixl 5 ◌>>=◌ ◌>>◌
  -- To open this is to open the other three.
  unfoldable pub ◌>>=◌ : Effect E S A → (A → Effect E S B) → Effect E S B
  unfolding pure throw try_catch
  ◌>>=◌ m f s = continue (m s) f

  abbrev pub ◌>>◌ : Effect E S A → Effect E S B → Effect E S B
  m >> n = m >>= λ _. n
