-- ===== src/Result.antt =====
-- packages/contracts/src/result.ts and apps/control-plane/src/result.ts: expected failures as values,
-- and packages/contracts/src/errors.ts: the stable error codes. An error is its code: `message`,
-- `path` and `details` are prose for people that no code of the program reads.
use sih26_proto.Common.{◌≡◌, refl, Bool, true, false, Option, none, some, if◌then◌else◌}

pub data Result {ℓ κ} (T : Type ℓ) (E : Type κ) : Type (ℓ ⊔ κ) where
  ok : T → Result T E
  err : E → Result T E

infixl 5 ◌>>=◌ ◌>>◌
abbrev pub ◌>>=◌ {ℓ κ λ'} :
    {T : Type ℓ} {U : Type κ} {E : Type λ'} → Result T E → (T → Result U E) → Result U E
err failure >>= next = err failure
ok value >>= next = next value

abbrev pub ◌>>◌ {ℓ κ λ'} :
    {T : Type ℓ} {U : Type κ} {E : Type λ'} → Result T E → Result U E → Result U E
m >> k = m >>= λ _. k

pub >>=-eq-ok {ℓ κ λ'} :
    {T : Type ℓ} {U : Type κ} {E : Type λ'} (first : Result T E) (next : T → Result U E) {u : U}
    → (first >>= next) ≡ ok u
    → (t : T) × (first ≡ ok t) × (next t ≡ ok u)
>>=-eq-ok (err failure) next h = cc h
>>=-eq-ok (ok t) next h = (t, refl, h)

pub data IntegrityError : Type 0 where
  malformed_contract bad_sequence illegal_transition duplicate_transition stale_schema
        unknown_schema stale_data redaction_failure missing_artifact changed_content invalid_path :
      IntegrityError

-- What passing an early return says.
module _ {ℓ κ} {T : Type ℓ} {E : Type κ} where
  pub guard-eq-ok :
      (b : Bool) (e : E) (rest : Result T E) {a : T}
      → (if b then err e else rest) ≡ ok a
      → (b ≡ false) × (rest ≡ ok a)
  guard-eq-ok true e rest h = cc
  guard-eq-ok false e rest h = (refl, h)

  pub ok_injective : (a b : T) → ◌≡◌ {A = Result T E} (ok a) (ok b) → b ≡ a
  ok_injective a b h = cc

  -- A value that may be `undefined`, and the early return where it is.
  abbrev pub require : E → Option T → Result T E
  require e none = err e
  require e (some a) = ok a

  pub require-eq-ok : (e : E) (o : Option T) {a : T} → require e o ≡ ok a → o ≡ some a
  require-eq-ok e none h = cc
  require-eq-ok e (some b) h = cc

pub >>-eq-ok {ℓ κ λ'} :
    {T : Type ℓ} {U : Type κ} {E : Type λ'} (first : Result T E) (rest : Result U E) {u : U}
    → (first >> rest) ≡ ok u
    → (t : T) × (first ≡ ok t) × (rest ≡ ok u)
>>-eq-ok (err failure) rest h = cc h
>>-eq-ok (ok t) rest h = (t, refl, h)
