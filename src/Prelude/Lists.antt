-- ===== src/Prelude/Lists.antt =====
-- Lists measured and indexed by native numbers, and a predicate on all elements.
use Prim.Native.Nat.{ℕ, zero, suc, ◌+◌, ◌<◌, ◌≤◌}
use mathlib.Core.Path.{◌≡◌, refl, ap}
use mathlib.Core.Logic.{◌⊎◌, inl, inr}
use mathlib.Core.Bool.{Bool, true, false}
use mathlib.Core.Option.{Option, none, some}
use mathlib.Core.List.{List, [], ◌∷◌, ◌++◌, map}
use native.Mathlib.Omega.{arith}

module _ {ℓ} {A : Type ℓ} where
  abbrev pub length : List A → ℕ
  length [] = 0
  length (x ∷ xs) = suc (length xs)

  abbrev pub get_elem? : List A → ℕ → Option A
  get_elem? [] i = none
  get_elem? (x ∷ xs) zero = some x
  get_elem? (x ∷ xs) (suc i) = get_elem? xs i

  -- `Vec::is_empty`.
  abbrev pub is_empty : List A → Bool
  is_empty [] = true
  is_empty (x ∷ xs) = false

  -- The elements for which a test holds, `Iterator::filter`.
  abbrev pub keep : (A → Bool) → List A → List A
  keep p [] = []
  keep p (x ∷ xs) = let rest = keep p xs in elim (p x) [ true ↦ x ∷ rest | false ↦ rest ]

  pub length-append : (xs ys : List A) → length (xs ++ ys) ≡ length xs + length ys
  length-append [] ys = omega arith
  length-append (x ∷ xs) ys = omega (arith, length-append xs ys)

  pub length-keep : (p : A → Bool) (xs : List A) → length (keep p xs) ≤ length xs
  length-keep p [] = omega arith
  length-keep p (x ∷ xs) = ground (arith, length-keep p xs)

  pub get_elem?-lt : (xs : List A) (i : ℕ) → i < length xs → (a : A) × (get_elem? xs i ≡ some a)
  get_elem?-lt [] i h = elim h [ ]
  get_elem?-lt (x ∷ xs) zero h = (x, refl)
  get_elem?-lt (x ∷ xs) (suc i) h = get_elem?-lt xs i (omega arith)

  pub get_elem?-some_lt : (xs : List A) (i : ℕ) {a : A} → get_elem? xs i ≡ some a → i < length xs
  get_elem?-some_lt [] i e = absurd (cc)
  get_elem?-some_lt (x ∷ xs) zero e = omega arith
  get_elem?-some_lt (x ∷ xs) (suc i) e = omega (arith, get_elem?-some_lt xs i e)

  abbrev pub All {κ} : (A → Type κ) → List A → Type κ
  All P [] = Unit
  All P (x ∷ xs) = P x × All P xs

  pub All-append {κ} : (P : A → Type κ) (xs ys : List A) → All P xs → All P ys → All P (xs ++ ys)
  All-append P [] ys hx hy = hy
  All-append P (x ∷ xs) ys hx hy = (hx.0, All-append P xs ys hx.1 hy)

  pub All-mono {κ μ} :
      (P : A → Type κ) (Q : A → Type μ)
      → ((a : A) → P a → Q a)
      → (xs : List A) → All P xs
      → All Q xs
  All-mono P Q f [] h = tt
  All-mono P Q f (x ∷ xs) h = (f x h.0, All-mono P Q f xs h.1)

pub length-map {ℓ κ} :
    {A : Type ℓ} {B : Type κ} (f : A → B) (xs : List A) → length (map f xs) ≡ length xs
length-map f [] = refl
length-map f (x ∷ xs) = ap suc (length-map f xs)

-- Membership, by recursion, so that the tactics read it.
module _ {A : Type 0} where
  abbrev pub Has : A → List A → Type 0
  Has a [] = ⊥
  Has a (x ∷ xs) = (x ≡ a) ⊎ Has a xs

  pub Has-append_left : (a : A) (xs ys : List A) → Has a xs → Has a (xs ++ ys)
  Has-append_left a [] ys h = absurd h
  Has-append_left a (x ∷ xs) ys (inl e) = inl e
  Has-append_left a (x ∷ xs) ys (inr h) = inr (Has-append_left a xs ys h)

  pub Has-append_last : (a : A) (xs : List A) → Has a (xs ++ a ∷ [])
  Has-append_last a [] = inl refl
  Has-append_last a (x ∷ xs) = inr (Has-append_last a xs)

  pub Has-append_cases : (a b : A) (xs : List A) → Has a (xs ++ b ∷ []) → Has a xs ⊎ (b ≡ a)
  Has-append_cases a b [] (inl e) = inr e
  Has-append_cases a b [] (inr h) = absurd h
  Has-append_cases a b (x ∷ xs) (inl e) = inl (inl e)
  Has-append_cases a b (x ∷ xs) (inr h) = elim (Has-append_cases a b xs h) [
    | inl i ↦ inl (inr i)
    | inr e ↦ inr e
  ]

  -- What `filter` keeps.
  pub Has-keep : (p : A → Bool) (a : A) (xs : List A) → Has a xs → p a ≡ true → Has a (keep p xs)
  Has-keep p a (x ∷ xs) (inl e) h = ground (arith, Has-keep p a xs)
  Has-keep p a (x ∷ xs) (inr i) h = ground (arith, Has-keep p a xs i h)
  Has-keep p a [] i h = absurd i

  pub keep_sound :
      (p : A → Bool) (a : A) (xs : List A) → Has a (keep p xs) → Has a xs × (p a ≡ true)
  keep_sound p a [] h = absurd h
  keep_sound p a (x ∷ xs) h = ground (arith, keep_sound p a xs)
