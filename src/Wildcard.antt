-- ===== src/Wildcard.antt =====
-- Wildcard patterns (crates/twerk-common/src/wildcard.rs). The table of the dynamic program is kept
-- as its rows: row `i` is `dp[i * (ls + 1)..(i + 1) * (ls + 1)]`, which the loops read and write only
-- where the next row is made from the one before it. Its first cell is the one that the first loop
-- writes.
pub mod Cells
pub mod Exact
use Prim.Native.Char.{Char, code}
use twerk.Prelude.{
  ℕ, String, Bool, true, false, ◌||◌, List, [], ◌∷◌, length, get_elem?, unwrap_or, ◌==◌, str_eq,
  not, if◌then◌else◌,
}

unfoldable pub chars : String → List Char
chars String.[] = []
chars (String.◌∷◌ c s) = c ∷ chars s

abbrev pub is_star : Char → Bool
is_star c = code c == b'*'

-- `pattern.contains('*')`.
unfoldable pub is_wild_pattern : String → Bool
is_wild_pattern String.[] = false
is_wild_pattern (String.◌∷◌ c s) = is_star c || is_wild_pattern s

-- `dp[idx]` from the cells above and to the left: `above_left`, `above` and `left`.
abbrev pub cell : Char → Char → Bool → Bool → Bool → Bool
cell pc c above_left above left =
    if is_star pc
    then above_left || above || left
    else if code pc == code c
    then above_left
    else false

-- The cells after the first one of a row, from the row above and the cell on the left.
unfoldable pub fill : Char → Bool → List Bool → List Char → List Bool
fill pc left (above_left ∷ above ∷ row) (c ∷ s) =
    let v = cell pc c above_left above left in v ∷ fill pc v (above ∷ row) s
fill pc left _ _ = []

abbrev pub first_cell : Char → List Bool → Bool
first_cell pc row = if is_star pc then unwrap_or (get_elem? row 0) false else false

unfoldable pub next_row : Char → List Char → List Bool → List Bool
unfolding fill
next_row pc s row = first_cell pc row ∷ fill pc (first_cell pc row) row s

unfoldable pub rows : List Char → List Char → List Bool → List Bool
unfolding next_row
rows [] s row = row
rows (pc ∷ pattern) s row = rows pattern s (next_row pc s row)

-- `vec![false; _]`, as long as the text.
abbrev pub falses : List Char → List Bool
falses [] = []
falses (c ∷ s) = false ∷ falses s

-- The table, and its last cell.
unfoldable pub dp : List Char → List Char → Bool
unfolding rows
dp pattern s = unwrap_or (get_elem? (rows pattern s (true ∷ falses s)) (length s)) false

unfoldable pub wildcard_match : String → String → Bool
unfolding is_wild_pattern dp chars
wildcard_match pattern s =
    if str_eq pattern ""
    then str_eq s ""
    else if str_eq pattern "*"
    then true
    else if not (is_wild_pattern pattern)
    then str_eq pattern s
    else dp (chars pattern) (chars s)
