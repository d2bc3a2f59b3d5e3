-- ===== src/Try.antt =====
-- The `?` operator on results, and iterators of results that are collected.
use twerk.Prelude.{◌≡◌, refl, Option, none, some, List, [], ◌∷◌}
use twerk.World.{Result, ok, err}

infixl 5 ◌>>=◌
unfoldable pub ◌>>=◌ {ℓ κ} : {X : Type ℓ} {Y : Type κ} → Result X → (X → Result Y) → Result Y
ok x >>= next = next x
err failure >>= next = err failure

-- `iter().map(f).collect::<Result<Vec<_>, _>>()`.
unfoldable pub collect {ℓ κ} : {A : Type ℓ} {B : Type κ} → (A → Result B) → List A → Result (List B)
collect f [] = ok []
collect f (x ∷ xs) = do y ← f x; ys ← collect f xs; ok (y ∷ ys)

-- `as_ref().map(f).transpose()`.
abbrev pub traverse {ℓ κ} :
    {A : Type ℓ} {B : Type κ} → (A → Result B) → Option A → Result (Option B)
traverse f none = ok none
traverse f (some a) = do b ← f a; ok (some b)

-- Where a chain returned `y`, its first part returned.
pub returned_from {ℓ κ} :
    {X : Type ℓ} {Y : Type κ} (r : Result X) (next : X → Result Y) {y : Y} (h : (r >>= next) ≡ ok y)
    → (x : X) × (r ≡ ok x) × (next x ≡ ok y)
unfolding ◌>>=◌
returned_from (ok x) next h = (x, refl, h)
returned_from (err failure) next h = absurd (cc)
