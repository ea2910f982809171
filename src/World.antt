-- ===== src/World.antt =====
-- What a service method runs in: the database, and the object storage, which no transaction rolls back. A call returns
-- or raises, and both leave a world behind.
pub mod Keeps
use document_generation_anek.Prelude.{Bool, true, false, Option, none, some}
use document_generation_anek.Result.{Error, Result, ok, err}
use document_generation_anek.Database.{Db, Tx}

pub record World (O : Type 0) : Type 0 where
  pub db : Db
  pub objects : O

abbrev pub Io : Type 0 → Type 0 → Type 0
Io O A = World O → Result A × World O

module _ {O A : Type 0} where
  abbrev pub pure : A → Io O A
  pure a w = (ok a, w)

  abbrev pub raise : Error → Io O A
  raise e w = (err e, w)

  abbrev pub lift : Result A → Io O A
  lift r w = (r, w)

  abbrev pub or_raise : Option A → Error → Io O A
  or_raise none e w = (err e, w)
  or_raise (some a) e w = (ok a, w)

  -- what a session did so far is lost when it raises; the transaction rolls back
  abbrev pub in_session : World O → Result (A × Db) → Result A × World O
  in_session w (ok (a, db)) = (ok a, record w { db = db })
  in_session w (err e) = (err e, w)

  -- repository calls in the open session
  abbrev pub session : Tx A → Io O A
  session m w = in_session w (m w.db)

  abbrev pub in_storage : World O → Result A × O → Result A × World O
  in_storage w (r, objects) = (r, record w { objects = objects })

  -- a call of the storage service
  abbrev pub storing : (O → Result A × O) → Io O A
  storing f w = in_storage w (f w.objects)

  -- `async with get_transaction_session()`: the tables are as before when the body raises
  abbrev pub commit : Db → Result A × World O → Result A × World O
  commit before (ok a, w) = (ok a, w)
  commit before (err e, w) = (err e, record w { db = before })

  unfoldable pub transaction : Io O A → Io O A
  transaction body w = commit w.db (body w)

  abbrev pub handle : (Error → Io O A) → Result A × World O → Result A × World O
  handle handler (ok a, w) = (ok a, w)
  handle handler (err e, w) = handler e w

  -- `try: body; except Exception: handler`
  abbrev pub catch : Io O A → (Error → Io O A) → Io O A
  catch body handler w = handle handler (body w)

  abbrev pub answered : A → World O → Result (Unit {0}) → Result A × World O
  answered a w (ok u) = (ok a, w)
  answered a w (err e) = (err e, w)

  -- the COMMIT at the end of the body, with the answer that the database gives to it
  abbrev pub sent : (Db → Result (Unit {0})) → Result A × World O → Result A × World O
  sent answer (ok a, w) = answered a w (answer w.db)
  sent answer (err e, w) = (err e, w)

module _ {O A B : Type 0} where
  abbrev pub resume :
      (Db → Result (Unit {0}))
      → Db
      → (B → Io O A)
      → (B → Error → Io O A)
      → Result B × World O
      → Result A × World O
  resume answer before rest handler (err e, w) = commit before (err e, w)
  resume answer before rest handler (ok b, w) =
      handle (handler b) (commit before (sent answer (rest b w)))

  -- One transaction in a `try`, whose handler does nothing but raise again unless the first part was reached. The COMMIT may
  -- fail (a constraint that a concurrent transaction has taken, a lost connection): then nothing of it is kept.
  unfoldable pub transaction_in_two :
      (Db → Result (Unit {0})) → Io O B → (B → Io O A) → (B → Error → Io O A) → Io O A
  transaction_in_two answer first rest handler w = resume answer w.db rest handler (first w)

abbrev pub raise_if : {O : Type 0} → Bool → Error → Io O (Unit {0})
raise_if true e w = (err e, w)
raise_if false e w = (ok tt, w)

abbrev pub then_do : {O A B : Type 0} → Result A × World O → (A → Io O B) → Result B × World O
then_do (ok a, w) f = f a w
then_do (err e, w) f = (err e, w)

infixl 5 ◌>>=◌ ◌>>◌
abbrev pub ◌>>=◌ : {O A B : Type 0} → Io O A → (A → Io O B) → Io O B
◌>>=◌ m f w = then_do (m w) f

abbrev pub ◌>>◌ : {O A B : Type 0} → Io O A → Io O B → Io O B
m >> k = m >>= λ _. k
