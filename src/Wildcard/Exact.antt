-- ===== src/Wildcard/Exact.antt =====
-- The table of a wildcard pattern answers for what the pattern matches.
use Prim.Native.Char.{Char}
use twerk.Prelude.{
  String, Bool, true, false, ◌≡◌, ◌↔◌, refl, sym, ap, subst, inl, inr, List, [], ◌∷◌, length,
  get_elem?, unwrap_or, str_eq, eq_iff, Bool-cases, arith,
}
use twerk.Wildcard.Cells.{
  Glob, done, literal, nothing, one_more, Accept, Fits, Accept-here, Fits-fill, literal_sound,
  literal_complete, star_sound, star_complete,
}
use twerk.Wildcard.{
  chars, is_star, is_wild_pattern, next_row, rows, falses, dp, first_cell, wildcard_match,
}

-- What the next row says of the pattern after its character.
row-next :
    (x : Char) (p : List Char) (b : Bool) (row : List Bool) (s : List Char)
    → Fits (b ∷ row) s
    → Accept (next_row x s (b ∷ row)) s p ↔ Accept (b ∷ row) s (x ∷ p)
unfolding next_row
row-next x p b row s h = elim (Bool-cases (is_star x)) [
  | inl e ↦ (
    λ a. elim (star_sound x p _ b row s e h a) [
      | inl (on, g) ↦ Accept-here b row s (x ∷ p) (ground arith) g
      | inr rest ↦ rest
    ],
    λ a. star_complete x p _ b row s e (λ k. ground arith) h (inr a),
  )
  | inr e ↦ (
    λ a. elim (literal_sound x p _ b row s e h a) [
      | inl (on, g) ↦ absurd (ground arith)
      | inr rest ↦ rest
    ],
    λ a. literal_complete x p _ b row s e h (inr a),
  )
]

-- What the last row says: its last cell is for the whole text.
last_iff :
    (b : Bool) (row : List Bool) (s : List Char)
    → Fits (b ∷ row) s
    → (unwrap_or (get_elem? (b ∷ row) (length s)) false ≡ true) ↔ Accept (b ∷ row) s []
last_iff b row [] h = (λ e. (e, done), λ (e, g). e)
last_iff b [] (c ∷ s) h = elim h [ ]
last_iff b (a ∷ row) (c ∷ s) h = (
  λ e. inr ((last_iff a row s h).0 e),
  λ accepted. elim accepted [ inl (_, g) ↦ elim g [ ] | inr rest ↦ (last_iff a row s h).1 rest ],
)

rows_iff :
    (p s : List Char) (b : Bool) (row : List Bool)
    → Fits (b ∷ row) s
    → (unwrap_or (get_elem? (rows p s (b ∷ row)) (length s)) false ≡ true) ↔ Accept (b ∷ row) s p
unfolding rows next_row
rows_iff [] s b row h = last_iff b row s h
rows_iff (x ∷ p) s b row h =
    let after = rows_iff p s _ _ (Fits-fill x (first_cell x (b ∷ row)) b row s h) in
    let step = row-next x p b row s h in (λ e. step.0 (after.0 e), λ a. after.1 (step.1 a))

Fits-falses : (b : Bool) (s : List Char) → Fits (b ∷ falses s) s
Fits-falses b [] = tt
Fits-falses b (c ∷ s) = Fits-falses false s

falses-Accept_none : (s p : List Char) → Accept (false ∷ falses s) s p → ⊥
falses-Accept_none [] p (e, g) = absurd (cc)
falses-Accept_none (c ∷ s) p (inl (e, g)) = absurd (cc)
falses-Accept_none (c ∷ s) p (inr rest) = falses-Accept_none s p rest

first_row : (s p : List Char) → Accept (true ∷ falses s) s p → Glob p s
first_row [] p (e, g) = g
first_row (c ∷ s) p (inl (e, g)) = g
first_row (c ∷ s) p (inr rest) = absurd (falses-Accept_none s p rest)

dp_iff : (p s : List Char) → (dp p s ≡ true) ↔ Glob p s
unfolding dp
dp_iff p s =
    let table = rows_iff p s true (falses s) (Fits-falses true s) in
    (λ e. first_row s p (table.0 e), λ g. table.1 (Accept-here true (falses s) s p refl g))

-- A pattern without a star matches itself alone.
plain_self : (p : String) → is_wild_pattern p ≡ false → Glob (chars p) (chars p)
unfolding chars is_wild_pattern
plain_self String.[] e = done
plain_self (String.◌∷◌ c p) e = literal (ground arith) (plain_self p (ground arith))

plain_only : (p s : String) → is_wild_pattern p ≡ false → Glob (chars p) (chars s) → p ≡ s
unfolding chars is_wild_pattern
plain_only String.[] String.[] e g = refl
plain_only String.[] (String.◌∷◌ d s) e g = elim g [ ]
plain_only (String.◌∷◌ c p) String.[] e (nothing star g) = absurd (ground arith)
plain_only (String.◌∷◌ c p) (String.◌∷◌ d s) e (literal _ g) =
    ap (λ t. String.◌∷◌ c t) (plain_only p s (ground arith) g)
plain_only (String.◌∷◌ c p) (String.◌∷◌ d s) e (nothing star g) = absurd (ground arith)
plain_only (String.◌∷◌ c p) (String.◌∷◌ d s) e (one_more star g) = absurd (ground arith)

star_matches : (s : List Char) → Glob (chars "*") s
unfolding chars
star_matches [] = nothing refl done
star_matches (c ∷ s) = one_more refl (star_matches s)

empty_iff : (s : String) → (str_eq s "" ≡ true) ↔ Glob (chars "") (chars s)
unfolding chars is_wild_pattern
empty_iff s = (
  λ e. subst (λ t. Glob (chars "") (chars t)) (sym ((eq_iff s "").0 e)) done,
  λ g. (eq_iff s "").1 (sym (plain_only "" s refl g)),
)

plain_iff :
    (p s : String) → is_wild_pattern p ≡ false → (str_eq p s ≡ true) ↔ Glob (chars p) (chars s)
plain_iff p s w = (
  λ e. subst (λ t. Glob (chars p) (chars t)) ((eq_iff p s).0 e) (plain_self p w),
  λ g. (eq_iff p s).1 (plain_only p s w g),
)

-- A pattern matches a text exactly where the text is made from the pattern by putting any characters,
-- or none, in the place of each star.
pub wildcard_match_iff :
    (pattern s : String) → (wildcard_match pattern s ≡ true) ↔ Glob (chars pattern) (chars s)
unfolding wildcard_match
wildcard_match_iff pattern s = elim (Bool-cases (str_eq pattern "")) [
  | inl e ↦
      let empty = (eq_iff pattern "").0 e in
      (
        λ h. subst (λ t. Glob (chars t) (chars s)) (sym empty) ((empty_iff s).0 (ground arith)),
        λ g.
            let matched = (empty_iff s).1 (subst (λ t. Glob (chars t) (chars s)) empty g) in
            ground arith,
      )
  | inr e ↦ elim (Bool-cases (str_eq pattern "*")) [
    | inl f ↦ (
      λ h.
          subst (λ t. Glob (chars t) (chars s)) (sym ((eq_iff pattern "*").0 f))
            (star_matches (chars s)),
      λ g. ground arith,
    )
    | inr f ↦ elim (Bool-cases (is_wild_pattern pattern)) [
      | inl w ↦ (
        λ h. (dp_iff (chars pattern) (chars s)).0 (ground arith),
        λ g. let matched = (dp_iff (chars pattern) (chars s)).1 g in ground arith,
      )
      | inr w ↦ (
        λ h. (plain_iff pattern s w).0 (ground arith),
        λ g. let matched = (plain_iff pattern s w).1 g in ground arith,
      )
    ]
  ]
]
