-- ===== src/Database/Keeps.antt =====
-- Repository calls that leave a part of the tables as it was.
use document_generation_anek.Prelude.{◌≡◌, refl, ap, ◌∙◌, Bool, true, false, Option, none, some}
use document_generation_anek.Result.{Error, Result, ok, err}
use document_generation_anek.Database.{Db, Tx, or_raise, raise_if, bind_result, ◌>>=◌}

module _ {F : Type 0} (part : Db → F) where
  abbrev pub Kept : {A : Type 0} → Db → Result (A × Db) → Type 0
  Kept db (ok (a, db')) = part db' ≡ part db
  Kept db (err e) = Unit {0}

  -- where the call returns, that part of the tables is as before
  abbrev pub Keeps : {A : Type 0} → Tx A → Type 0
  Keeps m = (db : Db) → Kept db (m db)

  pub >>=-Keeps :
      {A B : Type 0} (m : Tx A) (f : A → Tx B) → Keeps m → ((a : A) → Keeps (f a)) → Keeps (m >>= f)
  >>=-Keeps {A} {B} m f h k db = go (m db) (h db)
    where
      later : (db1 : Db) → part db1 ≡ part db → (r : Result (B × Db)) → Kept db1 r → Kept db r
      later db1 p (ok (b, db2)) q = q ∙ p
      later db1 p (err e) q = tt

      go : (r : Result (A × Db)) → Kept db r → Kept db (bind_result r f)
      go (ok (a, db1)) p = later db1 p (f a db1) (k a db1)
      go (err e) p = tt

  pub or_raise-Keeps : {A : Type 0} (o : Option A) (e : Error) → Keeps (or_raise o e)
  or_raise-Keeps none e db = tt
  or_raise-Keeps (some a) e db = refl

  pub raise_if-Keeps : (b : Bool) (e : Error) → Keeps (raise_if b e)
  raise_if-Keeps true e db = tt
  raise_if-Keeps false e db = refl

-- what holds of a part holds of what is read off it
pub ap-Keeps :
    {F G A : Type 0} (part : Db → F) (read : F → G) (m : Tx A)
    → Keeps part m
    → Keeps (λ db. read (part db)) m
ap-Keeps {F} {G} {A} part read m h db = go (m db) (h db)
  where
    go : (r : Result (A × Db)) → Kept part db r → Kept (λ d. read (part d)) db r
    go (ok (a, db')) q = ap read q
    go (err e) q = tt
