-- ===== src/Outcome.antt =====
-- `Result<T, E>` for the components that have error types of their own, with `?`, `map_err` and
-- iterators of results that are collected.
use twerk.Prelude.{◌≡◌, refl, Bool, true, false}

pub data Outcome {ℓ} (E : Type 0) (A : Type ℓ) : Type ℓ where
  ok : A → Outcome E A
  err : E → Outcome E A

infixl 5 ◌>>=◌ ◌>>◌
unfoldable pub ◌>>=◌ {ℓ κ} :
    {E : Type 0} {A : Type ℓ} {B : Type κ} → Outcome E A → (A → Outcome E B) → Outcome E B
ok a >>= next = next a
err failure >>= next = err failure

abbrev pub ◌>>◌ {κ} : {E : Type 0} {B : Type κ} → Outcome E (Unit {0}) → Outcome E B → Outcome E B
checked >> next = checked >>= λ done. next

-- An early return: `if test { return Err(failure); }`.
abbrev pub refuse_if {ℓ} : {E : Type 0} {A : Type ℓ} → Bool → E → Outcome E A → Outcome E A
refuse_if true failure rest = err failure
refuse_if false failure rest = rest

-- `Result::map_err` and `Result::map`.
abbrev pub map_err {ℓ} : {E F : Type 0} {A : Type ℓ} → (E → F) → Outcome E A → Outcome F A
map_err f (ok a) = ok a
map_err f (err failure) = err (f failure)

abbrev pub map_ok {ℓ κ} :
    {E : Type 0} {A : Type ℓ} {B : Type κ} → (A → B) → Outcome E A → Outcome E B
map_ok f (ok a) = ok (f a)
map_ok f (err failure) = err failure

-- Where a chain returned, its first part returned, and the rest did from there.
pub from_first {ℓ κ} :
    {E : Type 0} {A : Type ℓ} {B : Type κ} (r : Outcome E A) (next : A → Outcome E B) {b : B}
    → (r >>= next) ≡ ok b
    → (a : A) × (r ≡ ok a) × (next a ≡ ok b)
unfolding ◌>>=◌
from_first (ok a) next h = (a, refl, h)
from_first (err failure) next h = absurd (cc)

module _ {ℓ κ μ} {E : Type 0} {A : Type ℓ} {B : Type κ} {C : Type μ} where
  pub assoc :
      (r : Outcome E A) (f : A → Outcome E B) (g : B → Outcome E C)
      → ((r >>= f) >>= g) ≡ (r >>= λ a. f a >>= g)
  unfolding ◌>>=◌
  assoc (ok a) f g = refl
  assoc (err failure) f g = refl

pub same_rest {ℓ κ} :
    {E : Type 0} {A : Type ℓ} {B : Type κ} (r : Outcome E A) (f g : A → Outcome E B)
    → ((a : A) → f a ≡ g a)
    → (r >>= f) ≡ (r >>= g)
unfolding ◌>>=◌
same_rest (ok a) f g h = h a
same_rest (err failure) f g h = refl
