-- ===== src/Asl/Switch/First.antt =====
-- A switch chooses the first case that matches.
use twerk.Prelude.{
  Bool, true, false, String, Option, none, some, List, [], ◌∷◌, ◌++◌, All, ◌≡◌, refl, ap, sym,
  subst, ◌≢◌, ◌⊎◌, inl, inr,
}
use twerk.Outcome.{ok, err}
use twerk.Vm.{
  SlotValue, null, bool, int, float, string, overflow_panic, stack_overflow, division_by_zero,
  stack_underflow, invalid_binary_op, invalid_unary_op, slot_out_of_bounds, type_error, Floats,
  Result, execute,
}
use twerk.Asl.States.{SwitchCase, SwitchState}
use twerk.Asl.Switch.{is_match, evaluate_case, choose, evaluate_cases, evaluate}

module _ (fl : Floats) (slots : List SlotValue) where
  -- The code of a case gave another value than true, or an error that is no panic.
  abbrev pub Misses : SwitchCase → Type 0
  Misses c =
      (execute fl c.ops slots ≢ ok (bool true)) × (execute fl c.ops slots ≢ err overflow_panic)

  -- Cases that miss, before one of which the code gave `r`.
  abbrev pub FirstIs : List SwitchCase → Result SlotValue → SwitchCase → Type 0
  FirstIs cases r c =
      (before : List SwitchCase) × (rest : List SwitchCase) × (cases ≡ before ++ c ∷ rest)
      × All Misses before
      × (execute fl c.ops slots ≡ r)

  -- The outcomes of a choice.
  abbrev pub Chosen : List SwitchCase → Option String → Option (Option String) → Type 0
  Chosen cases default r =
      ((c : SwitchCase) × FirstIs cases (ok (bool true)) c × (r ≡ some (some c.target)))
      ⊎ ((All Misses cases × (r ≡ some default))
          ⊎ ((c : SwitchCase) × FirstIs cases (err overflow_panic) c × (r ≡ none)))

  later :
      (c : SwitchCase) (cases : List SwitchCase) (default : Option String)
      (r : Option (Option String))
      → Misses c
      → Chosen cases default r
      → Chosen (c ∷ cases) default r
  later c cases default r e (inl (d, (before, rest, split, none_before, matched), p)) =
      inl (d, (c ∷ before, rest, ap (λ l. c ∷ l) split, (e, none_before), matched), p)
  later c cases default r e (inr (inl (all_fail, p))) = inr (inl ((e, all_fail), p))
  later c cases default r e (inr (inr (d, (before, rest, split, none_before, panics), p))) =
      inr (inr (d, (c ∷ before, rest, ap (λ l. c ∷ l) split, (e, none_before), panics), p))

  -- How a case is decided by what its code gave.
  abbrev Decided : Result SlotValue → Option Bool → Type 0
  Decided r o =
      ((r ≡ ok (bool true)) × (o ≡ some true))
      ⊎ (((r ≢ ok (bool true)) × (r ≢ err overflow_panic) × (o ≡ some false))
          ⊎ ((r ≡ err overflow_panic) × (o ≡ none)))

  is_match-Decided : (r : Result SlotValue) → Decided r (is_match r)
  is_match-Decided (ok (bool true)) = inl (refl, refl)
  is_match-Decided (ok (bool false)) = inr (inl (λ e. absurd (cc), λ e. absurd (cc), refl))
  is_match-Decided (ok null) = inr (inl (λ e. absurd (cc), λ e. absurd (cc), refl))
  is_match-Decided (ok (int n)) = inr (inl (λ e. absurd (cc), λ e. absurd (cc), refl))
  is_match-Decided (ok (float x)) = inr (inl (λ e. absurd (cc), λ e. absurd (cc), refl))
  is_match-Decided (ok (string s)) = inr (inl (λ e. absurd (cc), λ e. absurd (cc), refl))
  is_match-Decided (err overflow_panic) = inr (inr (refl, refl))
  is_match-Decided (err stack_overflow) = inr (inl (λ e. absurd (cc), λ e. absurd (cc), refl))
  is_match-Decided (err division_by_zero) = inr (inl (λ e. absurd (cc), λ e. absurd (cc), refl))
  is_match-Decided (err (stack_underflow n m)) =
      inr (inl (λ e. absurd (cc), λ e. absurd (cc), refl))
  is_match-Decided (err (invalid_binary_op o a b)) =
      inr (inl (λ e. absurd (cc), λ e. absurd (cc), refl))
  is_match-Decided (err (invalid_unary_op o a)) =
      inr (inl (λ e. absurd (cc), λ e. absurd (cc), refl))
  is_match-Decided (err (slot_out_of_bounds i n)) =
      inr (inl (λ e. absurd (cc), λ e. absurd (cc), refl))
  is_match-Decided (err (type_error e a)) = inr (inl (λ p. absurd (cc), λ p. absurd (cc), refl))

  cases-Chosen :
      (cases : List SwitchCase) (default : Option String)
      → Chosen cases default (evaluate_cases fl slots cases default)
  unfolding evaluate_cases evaluate_case
  cases-Chosen [] default = inr (inl (tt, refl))
  cases-Chosen (c ∷ cases) default =
      go (is_match (execute fl c.ops slots)) (is_match-Decided (execute fl c.ops slots))
        (cases-Chosen cases default)
    where
      go :
          (o : Option Bool)
          → Decided (execute fl c.ops slots) o
          → Chosen cases default (evaluate_cases fl slots cases default)
          → Chosen
              (c ∷ cases)
              default
              (choose fl slots o c.target (evaluate_cases fl slots cases default))
      go o (inl (e, p)) rest = inl (
        c,
        ([], cases, refl, tt, e),
        ap (λ x. choose fl slots x c.target (evaluate_cases fl slots cases default)) p,
      )
      go o (inr (inl (f, g, p))) rest =
          subst
            (λ x.
              Chosen (c ∷ cases) default
                (choose fl slots x c.target (evaluate_cases fl slots cases default)))
            (sym p) (later c cases default _ (f, g) rest)
      go o (inr (inr (e, p))) rest = inr (
          inr (
            c,
            ([], cases, refl, tt, e),
            ap (λ x. choose fl slots x c.target (evaluate_cases fl slots cases default)) p,
          ))

-- A switch gives the target of its first case whose code evaluates to true, or its default where
-- none does, an error of the code being no match; where the code of a case before those panics, so
-- does the switch.
pub evaluate-first :
    (fl : Floats) (slots : List SlotValue) (s : SwitchState)
    → Chosen fl slots s.cases s.default (evaluate fl slots s)
unfolding evaluate
evaluate-first fl slots s = cases-Chosen fl slots s.cases s.default
