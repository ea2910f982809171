-- ===== src/Storage/Laws.antt =====
-- What callers rely on of the object store's client, and what follows for the storage service: which keys have an object
-- after a call.
use Prim.Native.String.{String}
use document_generation_anek.Prelude.{
  ◌≡◌, refl, sym, ap, ◌∙◌, Bool, true, false, not, Bool-cases, inl, inr, length, if◌then◌else◌,
}
use document_generation_anek.Text.{Text, text_eq}
use document_generation_anek.Result.{Error, Result, ok, err, storage}
use document_generation_anek.StorageKeys.{template_key}
use document_generation_anek.Storage.{
  Bytes, MinioClient, StorageSettings, StorageObject, storage_error, wrapped, ensure_bucket,
  put_object, upload_template,
}
use document_generation_anek.World.{
  World, Io, pure, raise, lift, raise_if, storing, in_storage, handle, then_do, ◌>>=◌, ◌>>◌,
}
use document_generation_anek.World.Keeps.{KeepsObjects}

-- the documented behaviour of the client: which keys hold an object after each call. An upload that fails stores
-- nothing, and a deletion succeeds.
pub record StoreLaws {O : Type 0} (client : MinioClient O) : Type 0 where
  pub holds : Text → O → Bool
  pub exists_keeps : (k : Text) (o : O) → holds k (client.bucket_exists o).1 ≡ holds k o
  pub make_keeps : (k : Text) (o : O) → holds k (client.make_bucket o).1 ≡ holds k o
  pub put_others :
      (key : Text) (c : Bytes) (t : String) (o : O) (k : Text)
      → text_eq k key ≡ false
      → holds k (client.put_object key c t o).1 ≡ holds k o
  pub put_fails :
      (key : Text) (c : Bytes) (t : String) (o : O) (e : Error) (k : Text)
      → (client.put_object key c t o).0 ≡ err e
      → holds k (client.put_object key c t o).1 ≡ holds k o
  pub remove_succeeds : (key : Text) (o : O) → (client.remove_object key o).0 ≡ ok tt
  pub remove_own : (key : Text) (o : O) → holds key (client.remove_object key o).1 ≡ false
  pub remove_others :
      (key : Text) (o : O) (k : Text)
      → holds k o ≡ false
      → holds k (client.remove_object key o).1 ≡ false

module _ {O : Type 0} {client : MinioClient O} (laws : StoreLaws client) where
  -- the same keys hold an object before and after
  abbrev pub KeepsHeld : {A : Type 0} → Io O A → Type 0
  KeepsHeld m = (w : World O) (k : Text) → laws.holds k (m w).1.objects ≡ laws.holds k w.objects

  -- no key but that of the result holds an object that held none before, and none at all when the call raises
  abbrev pub After : {A : Type 0} → (A → Text) → Text → Result A × World O → Type 0
  After key k (ok a, w) = text_eq k (key a) ≡ false → laws.holds k w.objects ≡ false
  After key k (err e, w) = laws.holds k w.objects ≡ false

  abbrev pub Stores : {A : Type 0} → (A → Text) → Io O A → Type 0
  Stores key m = (w : World O) (k : Text) → laws.holds k w.objects ≡ false → After key k (m w)

  pub >>=-KeepsHeld :
      {A B : Type 0} (m : Io O A) (f : A → Io O B)
      → KeepsHeld m
      → ((a : A) → KeepsHeld (f a))
      → KeepsHeld (m >>= f)
  >>=-KeepsHeld m f h g w k = go (m w) (h w k)
    where
      go :
          (r : Result _ × World O)
          → laws.holds k r.1.objects ≡ laws.holds k w.objects
          → laws.holds k (then_do r f).1.objects ≡ laws.holds k w.objects
      go (ok a, v) q = g a v k ∙ q
      go (err e, v) q = q

  pub >>=-Stores :
      {A B : Type 0} (key : B → Text) (m : Io O A) (f : A → Io O B)
      → KeepsHeld m
      → ((a : A) → Stores key (f a))
      → Stores key (m >>= f)
  >>=-Stores key m f h g w k q = go (m w) (h w k)
    where
      go :
          (r : Result _ × World O)
          → laws.holds k r.1.objects ≡ laws.holds k w.objects
          → After key k (then_do r f)
      go (ok a, v) p = g a v k (p ∙ q)
      go (err e, v) p = p ∙ q

  -- the same behind a call that does not write to the store
  pub keeps_then :
      {A B : Type 0} (key : B → Text) (m : Io O A) (f : A → Io O B)
      → KeepsObjects m
      → ((a : A) → Stores key (f a))
      → Stores key (m >>= f)
  keeps_then key m f h = >>=-Stores key m f λ w k. ap (laws.holds k) (h w)

  -- a result that is built from what was stored, under the same key
  pub Stores->>=-pure :
      {A B : Type 0} (key : A → Text) (key' : B → Text) (m : Io O A) (f : A → B)
      → ((a : A) → key' (f a) ≡ key a)
      → Stores key m
      → Stores key' (m >>= λ a. pure (f a))
  Stores->>=-pure key key' m f same h w k q = go (m w) (h w k q)
    where
      go : (r : Result _ × World O) → After key k r → After key' k (then_do r (λ a. pure (f a)))
      go (ok a, v) p = λ d. p (ap (text_eq k) (sym (same a)) ∙ d)
      go (err e, v) p = p

  wrapped-KeepsHeld : {A : Type 0} (m : Io O A) → KeepsHeld m → KeepsHeld (wrapped m)
  wrapped-KeepsHeld {A} m h w k = go (m w) (h w k)
    where
      go :
          (r : Result A × World O)
          → laws.holds k r.1.objects ≡ laws.holds k w.objects
          → laws.holds k (handle (λ e. raise (storage_error e)) r).1.objects
            ≡ laws.holds k w.objects
      go (ok a, v) q = q
      go (err e, v) q = q

  storing-KeepsHeld :
      {A : Type 0} (f : O → Result A × O)
      → ((k : Text) (o : O) → laws.holds k (f o).1 ≡ laws.holds k o)
      → KeepsHeld (storing f)
  storing-KeepsHeld f h w k = h k w.objects

  module _ (settings : StorageSettings) where
    ensure_bucket-KeepsHeld : KeepsHeld (ensure_bucket client settings)
    unfolding ensure_bucket
    ensure_bucket-KeepsHeld = wrapped-KeepsHeld _ (
        >>=-KeepsHeld (storing client.bucket_exists) _
          (storing-KeepsHeld client.bucket_exists laws.exists_keeps) made)
      where
        made :
            (b : Bool)
            → KeepsHeld (
                if b then pure tt else (do
                  raise_if (not settings.auto_create_bucket) storage
                  storing client.make_bucket))
        made true w k = refl
        made false w k = elim (Bool-cases settings.auto_create_bucket) [
          | inl e ↦ rw e (laws.make_keeps k w.objects)
          | inr e ↦ rw e refl
        ]

    module _ (key : Text) (c : Bytes) (t : String) where
      abbrev written : StorageObject
      written = record { key = key; content_type = t; size_bytes = length c }

      write_one : Io O StorageObject
      write_one = do wrapped (storing (client.put_object key c t)); pure written

      write-Stores : Stores (λ a. a.key) write_one
      unfolding write_one
      write-Stores w k q =
          go (client.put_object key c t w.objects) (λ d. laws.put_others key c t w.objects k d ∙ q)
            (λ e p. laws.put_fails key c t w.objects e k p ∙ q)
        where
          go :
              (r : Result (Unit {0}) × O)
              → (text_eq k key ≡ false → laws.holds k r.1 ≡ false)
              → ((e : Error) → r.0 ≡ err e → laws.holds k r.1 ≡ false)
              → After
                  (λ a. a.key)
                  k
                  (then_do
                    (handle (λ e. raise (storage_error e)) (in_storage w r))
                    (λ _. pure written))
          go (ok a, o) other fails = other
          go (err e, o) other fails = fails e refl

      pub put_object-Stores : Stores (λ a. a.key) (put_object client settings key c t)
      unfolding put_object write_one
      put_object-Stores =
          >>=-Stores (λ a. a.key) (ensure_bucket client settings) (λ _. write_one)
            ensure_bucket-KeepsHeld (λ _. write-Stores)

    -- Storing a template's file puts an object under one key alone, that of the result.
    pub upload_template-Stores :
        (o t v f : Text) (c : Bytes) (type : String)
        → Stores (λ a. a.key) (upload_template client settings o t v f c type)
    unfolding upload_template
    upload_template-Stores o t v f c type =
        >>=-Stores (λ a. a.key) (lift (template_key settings.templates_prefix o t v f)) _
          (λ w k. refl) (λ key. put_object-Stores key c type)
