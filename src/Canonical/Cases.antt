-- ===== src/Canonical/Cases.antt =====
-- A postcondition through the branches of the strict parser.
use sih26_proto.Common.{◌≡◌, ◌≢◌, refl, Bool, true, false}
use sih26_proto.Result.{Result}
use sih26_proto.Canonical.Scan.{ParseFailure}
use sih26_proto.Canonical.Parser.{
  of_object, of_array, of_string, of_true, of_false, of_null, of_number, unexpected, another,
  finished, broken, Start, Next,
}
use sih26_proto.Canonical.Lengths.{Ensures}

pub Ensures-elim :
    {A : Type 0} {P : A → Type 0} (b : Bool) {x y : Result A ParseFailure}
    → (b ≡ true → Ensures P x)
    → (b ≡ false → Ensures P y)
    → Ensures P (elim b [ true ↦ x | false ↦ y ])
Ensures-elim true one other = one refl
Ensures-elim false one other = other refl

pub Ensures-next :
    {A : Type 0} {P : A → Type 0} (k : Next) {x y z : Result A ParseFailure}
    → (k ≡ another → Ensures P x)
    → (k ≡ finished → Ensures P y)
    → Ensures P z
    → Ensures P (elim k [ another ↦ x | finished ↦ y | broken ↦ z ])
Ensures-next another one two three = one refl
Ensures-next finished one two three = two refl
Ensures-next broken one two three = three

pub Ensures-start :
    {A : Type 0} {P : A → Type 0} (k : Start) {o a s t f n d u : Result A ParseFailure}
    → (k ≢ unexpected → Ensures P o)
    → (k ≢ unexpected → Ensures P a)
    → (k ≢ unexpected → Ensures P s)
    → Ensures P t
    → Ensures P f
    → Ensures P n
    → Ensures P d
    → Ensures P u
    → Ensures P (elim k [
      | of_object ↦ o
      | of_array ↦ a
      | of_string ↦ s
      | of_true ↦ t
      | of_false ↦ f
      | of_null ↦ n
      | of_number ↦ d
      | unexpected ↦ u
    ])
Ensures-start of_object o a s t f n d u = o λ p. cc p
Ensures-start of_array o a s t f n d u = a λ p. cc p
Ensures-start of_string o a s t f n d u = s λ p. cc p
Ensures-start of_true o a s t f n d u = t
Ensures-start of_false o a s t f n d u = f
Ensures-start of_null o a s t f n d u = n
Ensures-start of_number o a s t f n d u = d
Ensures-start unexpected o a s t f n d u = u
