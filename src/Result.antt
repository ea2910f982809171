-- ===== src/Result.antt =====
-- app/core/exceptions.py, and the failures of the storage client: what a service may raise.
use document_generation_anek.Prelude.{
  ◌≡◌, refl, ◌⊎◌, inl, inr, Bool, true, false, Option, none, some,
}

-- `unsafe_key` is InvalidStorageKeySegmentError, `storage` is StorageError, `value_error` is ValueError,
-- `s3_error` is minio.error.S3Error, `os_error` an OSError (with TimeoutError and ConnectionError), the last two are
-- RetryableGenerationError and PermanentGenerationError, and `fault` is any exception that the code does not mean to
-- raise (a missing row under a foreign key).
pub data Error : Type 0 where
  not_found conflict validation authentication authorization too_many_requests : Error
  unsafe_key storage value_error fault : Error
  s3_error os_error : Error
  retryable_generation permanent_generation : Error

-- what a call returns, or the error that it raises
pub data Result {ℓ} (A : Type ℓ) : Type ℓ where
  err : Error → Result A
  ok : A → Result A

infixl 5 ◌>>=◌ ◌>>◌
abbrev pub ◌>>=◌ {ℓ κ} : {A : Type ℓ} {B : Type κ} → Result A → (A → Result B) → Result B
err raised >>= continue = err raised
ok value >>= continue = continue value

abbrev pub ◌>>◌ {ℓ κ} : {A : Type ℓ} {B : Type κ} → Result A → Result B → Result B
first >> second = first >>= λ _. second

-- `if b: raise e`
abbrev pub raise_if : Bool → Error → Result (Unit {0})
raise_if true e = err e
raise_if false e = ok tt

-- `if x is None: raise e`
abbrev pub or_raise {ℓ} : {A : Type ℓ} → Option A → Error → Result A
or_raise none e = err e
or_raise (some a) e = ok a

-- A chain of two calls that returns has two calls that return.
pub >>=-eq-ok {ℓ κ} :
    {A : Type ℓ} {B : Type κ} (call : Result A) (continue : A → Result B) {result : B}
    → (call >>= continue) ≡ ok result
    → (value : A) × (call ≡ ok value) × (continue value ≡ ok result)
>>=-eq-ok (err raised) continue h = absurd (cc)
>>=-eq-ok (ok value) continue h = (value, refl, h)

-- Inversion of `or_raise` and of a guard that lets pass.
pub or_raise-eq-ok {ℓ} :
    {A : Type ℓ} (o : Option A) (e : Error) {a : A} → or_raise o e ≡ ok a → o ≡ some a
or_raise-eq-ok none e h = cc
or_raise-eq-ok (some b) e h = cc

pub raise_if-eq-ok : (b : Bool) (e : Error) {u : Unit {0}} → raise_if b e ≡ ok u → b ≡ false
raise_if-eq-ok true e h = cc
raise_if-eq-ok false e h = refl

pub Result-cases {ℓ} :
    {A : Type ℓ} (r : Result A) → ((a : A) × (r ≡ ok a)) ⊎ ((e : Error) × (r ≡ err e))
Result-cases (ok a) = inl (a, refl)
Result-cases (err e) = inr (e, refl)
