-- ===== src/Common/Act.antt =====
-- Code that calls the storage server: it takes the server's state and returns a status or a value,
-- with the state that its calls left. What was done before an error stays done.

use nasty_csi.Common.Result.{Result, ok, err, Code}

abbrev pub Act : Type 0 → Type 0 → Type 0
Act S A = S → Result Code A × S

module _ {S A : Type 0} where
  abbrev pub pure : A → Act S A
  pure a s = (ok a, s)

  abbrev pub raise : Code → Act S A
  raise c s = (err c, s)

  abbrev pub lift : Result Code A → Act S A
  lift r s = (r, s)

  -- A call of the server as an action whose failure the caller looks at.
  abbrev pub attempt : (S → A × S) → Act S A
  attempt call s = let (a, s') = call s in (ok a, s')

module _ {S A B : Type 0} where
  abbrev continue : Result Code A → (A → Act S B) → Act S B
  continue (ok a) f s = f a s
  continue (err c) f s = (err c, s)

  infixl 10 ◌>>=◌ ◌>>◌
  abbrev pub ◌>>=◌ : Act S A → (A → Act S B) → Act S B
  ◌>>=◌ m f s = let (r, s') = m s in continue r f s'

  abbrev pub ◌>>◌ : Act S A → Act S B → Act S B
  m >> n = m >>= λ _. n
