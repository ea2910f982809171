-- ===== src/World/Keeps.antt =====
-- Calls that do not write to the object storage, or not to the tables, and what a transaction leaves behind.
use document_generation_anek.Prelude.{◌≡◌, refl, ap, ◌∙◌, Bool, true, false, Option, none, some}
use document_generation_anek.Result.{Error, Result, ok, err}
use document_generation_anek.Database.{Db, Tx}
use document_generation_anek.Database.Keeps.{Kept, Keeps}
use document_generation_anek.World.{
  World, Io, or_raise, raise_if, session, storing, catch, in_session, in_storage, then_do, commit,
  handle, sent, answered, ◌>>=◌,
}

module _ {O : Type 0} where
  abbrev pub KeepsObjects : {A : Type 0} → Io O A → Type 0
  KeepsObjects m = (w : World O) → (m w).1.objects ≡ w.objects

  abbrev pub KeepsDb : {A : Type 0} → Io O A → Type 0
  KeepsDb m = (w : World O) → (m w).1.db ≡ w.db

module _ {O : Type 0} where
  pub raise_if-KeepsObjects : (b : Bool) (e : Error) → KeepsObjects {O = O} (raise_if b e)
  raise_if-KeepsObjects true e w = refl
  raise_if-KeepsObjects false e w = refl

module _ {O A B : Type 0} where
  then_do-objects :
      (w : World O) (r : Result A × World O) (f : A → Io O B)
      → r.1.objects ≡ w.objects
      → ((a : A) → KeepsObjects (f a))
      → (then_do r f).1.objects ≡ w.objects
  then_do-objects w (ok a, w1) f h k = k a w1 ∙ h
  then_do-objects w (err e, w1) f h k = h

  pub >>=-KeepsObjects :
      (m : Io O A) (f : A → Io O B)
      → KeepsObjects m
      → ((a : A) → KeepsObjects (f a))
      → KeepsObjects (m >>= f)
  >>=-KeepsObjects m f h k w = then_do-objects w (m w) f (h w) k

  then_do-db :
      (w : World O) (r : Result A × World O) (f : A → Io O B)
      → r.1.db ≡ w.db
      → ((a : A) → KeepsDb (f a))
      → (then_do r f).1.db ≡ w.db
  then_do-db w (ok a, w1) f h k = k a w1 ∙ h
  then_do-db w (err e, w1) f h k = h

  pub >>=-KeepsDb :
      (m : Io O A) (f : A → Io O B) → KeepsDb m → ((a : A) → KeepsDb (f a)) → KeepsDb (m >>= f)
  >>=-KeepsDb m f h k w = then_do-db w (m w) f (h w) k

module _ {O A : Type 0} where
  pub session-KeepsObjects : (m : Tx A) → KeepsObjects {O = O} (session m)
  session-KeepsObjects m w = kept (m w.db)
    where
      kept : (r : Result (A × Db)) → (in_session w r).1.objects ≡ w.objects
      kept (ok (a, db)) = refl
      kept (err e) = refl

  pub session-then :
      {B : Type 0} (m : Tx A) (f : A → Io O B)
      → ((a : A) → KeepsObjects (f a))
      → KeepsObjects (session m >>= f)
  session-then m f h = >>=-KeepsObjects (session m) f (session-KeepsObjects m) h

  pub or_raise-KeepsObjects : (o : Option A) (e : Error) → KeepsObjects {O = O} (or_raise o e)
  or_raise-KeepsObjects none e w = refl
  or_raise-KeepsObjects (some a) e w = refl

  pub storing-KeepsDb : (f : O → Result A × O) → KeepsDb (storing f)
  storing-KeepsDb f w = kept (f w.objects)
    where
      kept : (r : Result A × O) → (in_storage w r).1.db ≡ w.db
      kept (r, o) = refl

  pub catch-KeepsDb :
      (m : Io O A) (h : Error → Io O A)
      → KeepsDb m
      → ((e : Error) → KeepsDb (h e))
      → KeepsDb (catch m h)
  catch-KeepsDb m h k l w = kept (m w) (k w)
    where
      kept : (r : Result A × World O) → r.1.db ≡ w.db → (handle h r).1.db ≡ w.db
      kept (ok a, w1) q = q
      kept (err e, w1) q = l e w1 ∙ q

  pub commit-objects : (db : Db) (r : Result A × World O) → (commit db r).1.objects ≡ r.1.objects
  commit-objects db (ok a, w) = refl
  commit-objects db (err e, w) = refl

module _ {O A : Type 0} where
  -- a COMMIT writes nothing outside
  pub sent-objects :
      (answer : Db → Result (Unit {0})) (r : Result A × World O)
      → (sent answer r).1.objects ≡ r.1.objects
  sent-objects answer (err e, w) = refl
  sent-objects answer (ok a, w) = of_answer (answer w.db)
    where
      of_answer : (x : Result (Unit {0})) → (answered a w x).1.objects ≡ w.objects
      of_answer (ok u) = refl
      of_answer (err e) = refl

module _ {O F : Type 0} (part : Db → F) where
  abbrev pub Left : {A : Type 0} → F → Result A × World O → Type 0
  Left before (ok a, w) = part w.db ≡ before
  Left before (err e, w) = Unit {0}

  -- where the call returns, that part of the tables is as before
  abbrev pub Leaves : {A : Type 0} → Io O A → Type 0
  Leaves m = (w : World O) → Left (part w.db) (m w)

  pub session-Leaves : {A : Type 0} (m : Tx A) → Keeps part m → Leaves (session m)
  session-Leaves {A} m h w = go (m w.db) (h w.db)
    where
      go : (r : Result (A × Db)) → Kept part w.db r → Left (part w.db) (in_session w r)
      go (ok (a, db)) q = q
      go (err e) q = tt

  pub KeepsDb-Leaves : {A : Type 0} (m : Io O A) → KeepsDb m → Leaves m
  KeepsDb-Leaves {A} m h w = go (m w) (h w)
    where
      go : (r : Result A × World O) → r.1.db ≡ w.db → Left (part w.db) r
      go (ok a, v) q = ap part q
      go (err e, v) q = tt

  -- A property of the outcome that a call which leaves that part passes on.
  pub leaves_then :
      {A B : Type 0} (P : Result B × World O → Type 0) (m : Io O A) (f : A → Io O B) (before : F)
      → ((e : Error) (v : World O) → P (err e, v))
      → Leaves m
      → ((a : A) (v : World O) → part v.db ≡ before → P (f a v))
      → (w : World O) → part w.db ≡ before
      → P ((m >>= f) w)
  leaves_then {A} {B} P m f before failed h k w q = go (m w) (h w)
    where
      go : (r : Result A × World O) → Left (part w.db) r → P (then_do r f)
      go (ok a, v) p = k a v (p ∙ q)
      go (err e, v) p = failed e v

  pub >>=-Leaves :
      {A B : Type 0} (m : Io O A) (f : A → Io O B)
      → Leaves m
      → ((a : A) → Leaves (f a))
      → Leaves (m >>= f)
  >>=-Leaves {A} {B} m f h k w =
      leaves_then (Left (part w.db)) m f (part w.db) (λ e v. tt) h
        (λ a v p. later v p (f a v) (k a v)) w refl
    where
      later :
          (v : World O)
          → part v.db ≡ part w.db
          → (r : Result B × World O) → Left (part v.db) r
          → Left (part w.db) r
      later v p (ok b, u) q = q ∙ p
      later v p (err e, u) q = tt
