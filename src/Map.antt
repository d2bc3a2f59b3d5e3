-- ===== src/Map.antt =====
-- String-keyed maps (`HashMap<String, _>`, `DashMap<String, _>`). What the maps promise is the law
-- of `get` after `insert`; the order of iteration, which they leave open, is that of the entries.
use twerk.Prelude.{
  String, Bool, ◌≡◌, refl, Option, none, some, List, [], ◌∷◌, arith, str_eq, eq_iff, if◌then◌else◌,
  is_empty, ◌⊎◌, inl, inr, Bool-cases,
}

abbrev pub Map {ℓ} : Type ℓ → Type ℓ
Map V = List (String × V)

module _ {ℓ} {V : Type ℓ} where
  unfoldable pub get : Map V → String → Option V
  get [] k = none
  get ((j, v) ∷ m) k = if str_eq j k then some v else get m k

  -- Writes over the entry of the key, or adds one at the end.
  unfoldable pub insert : Map V → String → V → Map V
  insert [] k v = (k, v) ∷ []
  insert ((j, w) ∷ m) k v = if str_eq j k then (j, v) ∷ m else (j, w) ∷ insert m k v

  -- What the iterator yields, without the keys.
  unfoldable pub values : Map V → List V
  values [] = []
  values ((k, v) ∷ m) = v ∷ values m

  pub get-insert :
      (m : Map V) (k j : String) (v : V)
      → get (insert m k v) j ≡ (if str_eq k j then some v else get m j)
  unfolding get insert
  get-insert [] k j v = refl
  get-insert ((i, w) ∷ m) k j v =
      ground (arith, eq_iff i k, eq_iff i j, eq_iff k j, get-insert m k j v)

pub str_eq_refl : (k : String) → str_eq k k ≡ Bool.true
str_eq_refl k = (eq_iff k k).1 refl

module _ {ℓ} {V : Type ℓ} where
  pub get-insert_self : (m : Map V) (k : String) (v : V) → get (insert m k v) k ≡ some v
  get-insert_self m k v = simp (get-insert, str_eq_refl)

  -- What `remove` leaves: the entries of the other keys.
  unfoldable pub remove : Map V → String → Map V
  remove [] k = []
  remove ((j, v) ∷ m) k = let rest = remove m k in if str_eq j k then rest else (j, v) ∷ rest

  pub get-remove :
      (m : Map V) (k j : String) → get (remove m k) j ≡ (if str_eq k j then none else get m j)
  unfolding get remove
  get-remove [] k j = ground arith
  get-remove ((i, w) ∷ m) k j = ground (arith, eq_iff i k, eq_iff i j, eq_iff k j, get-remove m k j)

  -- A map that is empty is written as `None`.
  unfoldable pub non_empty : Map V → Option (Map V)
  non_empty m = if is_empty m then none else some m

module _ {V : Type 0} (m : Map V) (k j : String) (v : V) where
  -- What a map holds after a write: the written value at its key, or what was there.
  pub get-insert_cases :
      {u : V} → get (insert m k v) j ≡ some u → ((k ≡ j) × (v ≡ u)) ⊎ (get m j ≡ some u)
  get-insert_cases h = ground (arith, get-insert m k j v, eq_iff k j)

  pub get-insert-some : {u : V} → get m j ≡ some u → (w : V) × (get (insert m k v) j ≡ some w)
  get-insert-some {u = u} h = elim (Bool-cases (str_eq k j)) [
    | inl e ↦ (v, ground (arith, get-insert m k j v))
    | inr e ↦ (u, ground (arith, get-insert m k j v))
  ]
