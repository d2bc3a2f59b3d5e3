-- ===== src/Wildcard/Cells.antt =====
-- What a wildcard pattern matches, and what a row of the table says of the rest of the pattern.
use Prim.Native.Char.{Char, code}
use text.Mathlib.TextEquality.{Char-path}
use twerk.Prelude.{Bool, true, false, ◌≡◌, ◌⊎◌, refl, ap, subst, inl, inr, List, [], ◌∷◌, arith}
use twerk.Wildcard.{is_star, cell, fill}

-- A star stands for any characters, another character for itself.
pub data Glob : List Char → List Char → Type 0 where
  done : Glob [] []
  literal : {c : Char} {p s : List Char} → is_star c ≡ false → Glob p s → Glob (c ∷ p) (c ∷ s)
  nothing : {c : Char} {p s : List Char} → is_star c ≡ true → Glob p s → Glob (c ∷ p) s
  one_more :
      {c d : Char} {p s : List Char} → is_star c ≡ true → Glob (c ∷ p) s → Glob (c ∷ p) (d ∷ s)

-- The row has a true cell from which the rest of the text matches the pattern.
abbrev pub Accept : List Bool → List Char → List Char → Type 0
Accept [] s p = ⊥
Accept (b ∷ row) [] p = (b ≡ true) × Glob p []
Accept (b ∷ row) (c ∷ s) p = ((b ≡ true) × Glob p (c ∷ s)) ⊎ Accept row s p

-- A cell for each place of the text.
abbrev pub Fits : List Bool → List Char → Type 0
Fits [] s = ⊥
Fits (b ∷ row) [] = Unit
Fits (b ∷ row) (c ∷ s) = Fits row s

pub Accept-here :
    (b : Bool) (row : List Bool) (s p : List Char) → b ≡ true → Glob p s → Accept (b ∷ row) s p
Accept-here b row [] p e g = (e, g)
Accept-here b row (c ∷ s) p e g = inl (e, g)

pub Fits-fill :
    (pc : Char) (v b : Bool) (row : List Bool) (s : List Char)
    → Fits (b ∷ row) s
    → Fits (v ∷ fill pc v (b ∷ row) s) s
unfolding fill
Fits-fill pc v b row [] h = tt
Fits-fill pc v b [] (c ∷ s) h = elim h [ ]
Fits-fill pc v b (a ∷ row) (c ∷ s) h = Fits-fill pc (cell pc c b a v) a row s h

module _ (x : Char) (p : List Char) where
  literal_inv :
      (c : Char) (s : List Char) → is_star x ≡ false → Glob (x ∷ p) (c ∷ s) → (x ≡ c) × Glob p s
  literal_inv c s e (literal _ g) = (refl, g)
  literal_inv c s e (nothing star g) = absurd (cc)
  literal_inv c s e (one_more star g) = absurd (cc)

  literal_not_empty : is_star x ≡ false → Glob (x ∷ p) [] → ⊥
  literal_not_empty e (nothing star g) = absurd (cc)

  star_inv :
      (c : Char) (s : List Char)
      → is_star x ≡ true
      → Glob (x ∷ p) (c ∷ s)
      → Glob p (c ∷ s) ⊎ Glob (x ∷ p) s
  star_inv c s e (literal plain g) = absurd (cc)
  star_inv c s e (nothing _ g) = inl g
  star_inv c s e (one_more _ g) = inr g

  star_empty : is_star x ≡ true → Glob (x ∷ p) [] → Glob p []
  star_empty e (nothing _ g) = g

  pub literal_sound :
      (v b : Bool) (row : List Bool) (s : List Char)
      → is_star x ≡ false
      → Fits (b ∷ row) s
      → Accept (v ∷ fill x v (b ∷ row) s) s p
      → ((v ≡ true) × Glob p s) ⊎ Accept (b ∷ row) s (x ∷ p)
  unfolding fill
  literal_sound v b row [] e h a = inl a
  literal_sound v b [] (c ∷ s) e h a = elim h [ ]
  literal_sound v b (a ∷ row) (c ∷ s) e h (inl here) = inl here
  literal_sound v b (a ∷ row) (c ∷ s) e h (inr later) =
      elim (literal_sound (cell x c b a v) a row s e h later) [
        | inl (on, g) ↦ inr (
            inl (
              ground arith,
              subst (λ d. Glob (x ∷ p) (d ∷ s)) (Char-path x c (ground arith)) (literal e g),
            ))
        | inr rest ↦ inr (inr rest)
      ]

  pub literal_complete :
      (v b : Bool) (row : List Bool) (s : List Char)
      → is_star x ≡ false
      → Fits (b ∷ row) s
      → ((v ≡ true) × Glob p s) ⊎ Accept (b ∷ row) s (x ∷ p)
      → Accept (v ∷ fill x v (b ∷ row) s) s p
  unfolding fill
  literal_complete v b row s e h (inl (on, g)) = Accept-here v _ s p on g
  literal_complete v b row [] e h (inr (on, g)) = absurd (literal_not_empty e g)
  literal_complete v b [] (c ∷ s) e h (inr _) = elim h [ ]
  literal_complete v b (a ∷ row) (c ∷ s) e h (inr (inl (on, g))) =
      let (same, rest) = literal_inv c s e g in
      inr (literal_complete (cell x c b a v) a row s e h (inl (ground (arith, ap code same), rest)))
  literal_complete v b (a ∷ row) (c ∷ s) e h (inr (inr rest)) =
      inr (literal_complete (cell x c b a v) a row s e h (inr rest))

  pub star_sound :
      (v b : Bool) (row : List Bool) (s : List Char)
      → is_star x ≡ true
      → Fits (b ∷ row) s
      → Accept (v ∷ fill x v (b ∷ row) s) s p
      → ((v ≡ true) × Glob (x ∷ p) s) ⊎ Accept (b ∷ row) s (x ∷ p)
  unfolding fill
  star_sound v b row [] e h (on, g) = inl (on, nothing e g)
  star_sound v b [] (c ∷ s) e h a = elim h [ ]
  star_sound v b (a ∷ row) (c ∷ s) e h (inl (on, g)) = inl (on, nothing e g)
  star_sound v b (a ∷ row) (c ∷ s) e h (inr later) =
      elim (star_sound (cell x c b a v) a row s e h later) [
        | inl (on, g) ↦ from v b a refl refl refl on g
        | inr rest ↦ inr (inr rest)
      ]
    where
      from :
          (v' b' a' : Bool)
          → v ≡ v'
          → b ≡ b'
          → a ≡ a'
          → cell x c b a v ≡ true
          → Glob (x ∷ p) s
          → ((v ≡ true) × Glob (x ∷ p) (c ∷ s)) ⊎ Accept (b ∷ a ∷ row) (c ∷ s) (x ∷ p)
      from true _ _ k l m on g = inl (k, one_more e g)
      from false true _ k l m on g = inr (inl (l, one_more e g))
      from false false true k l m on g = inr (inr (Accept-here a row s (x ∷ p) m g))
      from false false false k l m on g = absurd (ground arith)

  pub star_complete :
      (v b : Bool) (row : List Bool) (s : List Char)
      → is_star x ≡ true
      → (b ≡ true → v ≡ true)
      → Fits (b ∷ row) s
      → ((v ≡ true) × Glob (x ∷ p) s) ⊎ Accept (b ∷ row) s (x ∷ p)
      → Accept (v ∷ fill x v (b ∷ row) s) s p
  unfolding fill
  star_complete v b row [] e up h (inl (on, g)) = (on, star_empty e g)
  star_complete v b row [] e up h (inr (on, g)) = (up on, star_empty e g)
  star_complete v b [] (c ∷ s) e up h _ = elim h [ ]
  star_complete v b (a ∷ row) (c ∷ s) e up h (inr (inr rest)) =
      inr (star_complete (cell x c b a v) a row s e (λ k. ground arith) h (inr rest))
  star_complete v b (a ∷ row) (c ∷ s) e up h (inl (on, g)) = elim (star_inv c s e g) [
    | inl g' ↦ inl (on, g')
    | inr g' ↦ inr (
        star_complete (cell x c b a v) a row s e (λ k. ground arith) h
          (inl (ground (arith, on), g')))
  ]
  star_complete v b (a ∷ row) (c ∷ s) e up h (inr (inl (on, g))) = elim (star_inv c s e g) [
    | inl g' ↦ inl (up on, g')
    | inr g' ↦ inr (
        star_complete (cell x c b a v) a row s e (λ k. ground arith) h
          (inl (ground (arith, up on), g')))
  ]
