-- ===== src/World/Steps.antt =====
-- How actions compose: what a run of the first part says of a run of both, and back.
use twerk.Prelude.{ℕ, zero, suc, ◌≡◌, refl, Option, some, Bool, true, false, if◌then◌else◌}
use twerk.World.{Error, Result, ok, err, World, M, pure, continue, ◌>>=◌, ◌>>◌, ok_or}

module _ {A B : Type 0} (m : M A) (f : A → M B) (w : World) where
  -- After a first part that returned, the rest runs from the state that it left.
  pub bind-ok : {a : A} {w' : World} → m w ≡ (ok a, w') → (m >>= f) w ≡ f a w'
  unfolding ◌>>=◌
  bind-ok e = rw e

  pub bind-err : {e : Error} {w' : World} → m w ≡ (err e, w') → (m >>= f) w ≡ (err e, w')
  unfolding ◌>>=◌
  bind-err e = rw e

  -- Where both returned, the first part returned.
  pub bind_inv :
      {b : B} {w' : World}
      → (m >>= f) w ≡ (ok b, w')
      → (a : A) × (v : World) × (m w ≡ (ok a, v)) × (f a v ≡ (ok b, w'))
  unfolding ◌>>=◌
  bind_inv {b} {w'} h = go (m w).0 refl h
    where
      go :
          (r : Result A)
          → (m w).0 ≡ r
          → continue r f (m w).1 ≡ (ok b, w')
          → (a : A) × (v : World) × (m w ≡ (ok a, v)) × (f a v ≡ (ok b, w'))
      go (ok a) e p = (a, (m w).1, λ i. (e i, (m w).1), p)
      go (err x) e p = absurd (cc)

-- A value that is there.
pub ok_or-ok :
    {A : Type 0} (e : Error) (o : Option A) (w : World) {a : A}
    → o ≡ some a
    → ok_or e o w ≡ (ok a, w)
ok_or-ok e o w p = rw p refl

-- The action, a number of times.
abbrev pub times : ℕ → M (Unit {0}) → M (Unit {0})
times zero m = pure tt
times (suc n) m = do times n m; m

module _ {A : Type 0} (m n : M A) (w : World) where
  pub if-true : {b : Bool} → b ≡ true → (if b then m else n) w ≡ m w
  if-true e = rw e refl

  pub if-false : {b : Bool} → b ≡ false → (if b then m else n) w ≡ n w
  if-false e = rw e refl
