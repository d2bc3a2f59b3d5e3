-- ===== src/Cache/Expiring.antt =====
-- What expires, and that the removal of what has expired is not seen.
use twerk.Prelude.{
  ℕ, String, Bool, true, false, ◌≡◌, ◌≤◌, ◌||◌, ◌&&◌, ◌∙◌, is_some, refl, ap, Option, none, some,
  List, [], ◌∷◌, arith, str_eq, eq_iff, Bool-cases, subst, inl, inr, if◌then◌else◌,
}
use twerk.Map.{Map, get, remove, get-remove}
use twerk.Outcome.{Outcome}
use twerk.Cache.{
  Item, Cache, is_expired, live, lookup, contains, modify, modified, past, object_of,
  keys_to_remove, remove_keys, delete_expired,
}

-- Each key has one entry.
abbrev pub Distinct {ℓ} : {A : Type ℓ} → Map A → Type ℓ
Distinct [] = Unit
Distinct ((key, v) ∷ m) = (get m key ≡ none) × Distinct m

abbrev member : String → List String → Bool
member key [] = false
member key (k ∷ keys) = str_eq k key || member key keys

past_later :
    (now t : ℕ) (expiration : Option ℕ)
    → now ≤ t
    → past now expiration ≡ true
    → past t expiration ≡ true
past_later now t none h e = absurd (cc)
past_later now t (some expiration) h e = ground arith

module _ {V : Type 0} where
  get-remove_keys :
      (keys : List String) (m : Map (Item V)) (key : String)
      → get (remove_keys keys m).1 key ≡ (if member key keys then none else get m key)
  unfolding remove_keys
  get-remove_keys [] m key = refl
  get-remove_keys (k ∷ keys) m key =
      ground (arith, get-remove_keys keys (remove m k) key, get-remove m k key)

  abbrev kept : ℕ → (String → ℕ) → Option (Item V) → String → Bool
  kept now later none key = false
  kept now later (some item) key = is_expired (later key) item && is_expired now item

  member-keys_to_remove :
      (now : ℕ) (later : String → ℕ) (m : Map (Item V)) (key : String)
      → Distinct m
      → member key (keys_to_remove now later m) ≡ kept now later (get m key) key
  unfolding keys_to_remove get is_expired
  member-keys_to_remove now later [] key d = refl
  member-keys_to_remove now later ((k, item) ∷ m) key (fresh, d) =
      let rest = member-keys_to_remove now later m key d in
      elim (Bool-cases (str_eq k key)) [
        | inl e ↦
            let absent = subst (λ j. get m j ≡ none) ((eq_iff k key).0 e) fresh in
            let same = (eq_iff k key).0 e in ground (arith, rest, absent, ap later same)
        | inr e ↦ ground arith
      ]

  -- What is left is what has not expired.
  get-delete_expired :
      (now : ℕ) (later : String → ℕ) (c : Cache V) (key : String)
      → Distinct c.items
      → now ≤ later key
      → get (delete_expired now later c).items key ≡ live now (get c.items key)
  unfolding delete_expired live is_expired
  get-delete_expired now later c key d after =
      let removed = get-remove_keys (keys_to_remove now later c.items) c.items key in
      let gone = member-keys_to_remove now later c.items key d in
      removed ∙ drop (get c.items key) gone
    where
      drop :
          (o : Option (Item V))
          → member key (keys_to_remove now later c.items) ≡ kept now later o key
          → (if member key (keys_to_remove now later c.items) then none else o) ≡ live now o
      drop none gone = ground arith
      drop (some item) gone = ground (arith, past_later now (later key) item.expiration after)

  live-live : (now t : ℕ) (o : Option (Item V)) → now ≤ t → live t (live now o) ≡ live t o
  unfolding live is_expired
  live-live now t none h = refl
  live-live now t (some item) h = ground (arith, past_later now t item.expiration h)

modified_lem :
    {V E : Type 0} (key : String) (f : V → Outcome E (Unit {0}) × V) (o : Option (Item V))
    (c d : Cache V)
    → (modified key f o c).0 ≡ (modified key f o d).0
modified_lem key f none c d = refl
modified_lem key f (some item) c d = refl

-- In a cache with one entry for each key, the removal of the expired items is not seen: at any later
-- time every key has the value, is contained and is modified with the result that it would have had
-- without it.
pub delete_expired-unseen :
    {V E : Type 0} (now : ℕ) (later : String → ℕ) (t : ℕ) (c : Cache V) (key : String)
    (f : V → Outcome E (Unit {0}) × V)
    → Distinct c.items
    → now ≤ later key
    → now ≤ t
    → (lookup t key (delete_expired now later c) ≡ lookup t key c)
      × (contains t key (delete_expired now later c) ≡ contains t key c)
      × ((modify t key f (delete_expired now later c)).0 ≡ (modify t key f c).0)
unfolding lookup contains modify
delete_expired-unseen now later t c key f d after h =
    let left = get-delete_expired now later c key d after in
    let same = ap (live t) left ∙ live-live now t (get c.items key) h in
    (
      ap object_of same,
      ap is_some same,
      ap (λ o. (modified key f o (delete_expired now later c)).0) same
          ∙ modified_lem key f (live t (get c.items key)) (delete_expired now later c) c,
    )
