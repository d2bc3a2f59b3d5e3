-- ===== src/Ir/Tree/Postfix.antt =====
-- The machine run on the postfix code of a tree gives the value of the tree.
use twerk.Prelude.{
  ℕ, suc, ◌≤◌, ◌≡◌, refl, sym, ap, subst, ◌∙◌, none, some, List, [], ◌∷◌, ◌++◌, All, All-append,
  arith, get_elem?, length as count, length-append,
}
use mathlib.Core.List.{append_assoc, append-nil}
use twerk.Outcome.{ok, err, ◌>>=◌}
use twerk.Ir.Value.{SlotValue, Result}
use twerk.Ir.Vm.{
  Op, jump_true, jump_false, jump, Stack, Program, pop, stay, execute_op, after, round, result_of,
  run, eval,
}
use twerk.Ir.Tree.{
  Unary, negation, length, Binary, equal, greater, less, greater_equal, less_equal, conjunction,
  disjunction, plus, minus, times, over, mod_by, contained, prefix, suffix, Tree, slot, constant,
  accessor, is_there, apply, combine, unary_op, binary_op, postfix, needs, value_of,
}
use twerk.Ir.Tree.Straight.{effect, stay_effect, straight, straight-postfix}

abbrev IsStraight : Op → Type 0
IsStraight (jump_true offset) = ⊥
IsStraight (jump_false offset) = ⊥
IsStraight (jump offset) = ⊥
IsStraight _ = Unit

unary-IsStraight : (o : Unary) → IsStraight (unary_op o)
unary-IsStraight negation = tt
unary-IsStraight length = tt

binary-IsStraight : (o : Binary) → IsStraight (binary_op o)
binary-IsStraight equal = tt
binary-IsStraight greater = tt
binary-IsStraight less = tt
binary-IsStraight greater_equal = tt
binary-IsStraight less_equal = tt
binary-IsStraight conjunction = tt
binary-IsStraight disjunction = tt
binary-IsStraight plus = tt
binary-IsStraight minus = tt
binary-IsStraight times = tt
binary-IsStraight over = tt
binary-IsStraight mod_by = tt
binary-IsStraight contained = tt
binary-IsStraight prefix = tt
binary-IsStraight suffix = tt

postfix-IsStraight : (t : Tree) → All IsStraight (postfix t)
unfolding postfix
postfix-IsStraight (slot i) = (tt, tt)
postfix-IsStraight (constant i) = (tt, tt)
postfix-IsStraight (accessor i) = (tt, tt)
postfix-IsStraight (is_there i) = (tt, tt)
postfix-IsStraight (apply o t) =
    All-append IsStraight (postfix t) _ (postfix-IsStraight t) (unary-IsStraight o, tt)
postfix-IsStraight (combine o l r) =
    All-append IsStraight (postfix l) _ (postfix-IsStraight l)
      (All-append IsStraight (postfix r) _ (postfix-IsStraight r) (binary-IsStraight o, tt))

get_elem?-end : {A : Type 0} (xs : List A) → get_elem? xs (count xs) ≡ none
get_elem?-end [] = refl
get_elem?-end (x ∷ xs) = get_elem?-end xs

get_elem?-middle :
    {A : Type 0} (xs : List A) (y : A) (ys : List A) → get_elem? (xs ++ y ∷ ys) (count xs) ≡ some y
get_elem?-middle [] y ys = refl
get_elem?-middle (x ∷ xs) y ys = get_elem?-middle xs y ys

module _ (p : Program) where
  -- An operation that is no jump leaves the program counter.
  stays :
      (op : Op) (pc : ℕ) (s : Stack)
      → IsStraight op
      → execute_op p op pc s ≡ stay p pc (effect p op s)
  unfolding execute_op
  stays (jump_true offset) pc s h = absurd h
  stays (jump_false offset) pc s h = absurd h
  stays (jump offset) pc s h = absurd h
  stays _ pc s h = ap (stay p pc) (sym (stay_effect p 0 _))

  after_stay :
      (r : Result Stack) (pc : ℕ) (fuel : ℕ) (code : List Op)
      → ((s : Stack) → run p fuel (suc pc) s ≡ some (straight p code s >>= result_of p))
      → after p (stay p pc r) (run p fuel) ≡ some ((r >>= straight p code) >>= result_of p)
  unfolding ◌>>=◌
  after_stay (ok s) pc fuel code h = h s
  after_stay (err failure) pc fuel code h = refl

  -- From the end of a part of its code the machine runs what follows, where that has no jumps.
  run-straight :
      (before code : List Op) (s : Stack)
      → All IsStraight code
      → p.ops ≡ before ++ code
      → run p (count code) (count before) s ≡ some (straight p code s >>= result_of p)
  unfolding run round straight
  run-straight before [] s h e =
      let end =
        subst (λ l. get_elem? l (count before) ≡ none) (sym (e ∙ append-nil before))
          (get_elem?-end before) in
      rw end refl
  run-straight before (op ∷ code) s h e =
      let found =
        subst (λ l. get_elem? l (count before) ≡ some op) (sym e)
          (get_elem?-middle before op code) in
      let next = e ∙ sym (append_assoc before (op ∷ []) code) in
      rw (found, stays op (count before) s h.0)
        (after_stay (effect p op s) (count before) (count code) code (λ s'.
          subst (λ n. run p (count code) n s' ≡ some (straight p code s' >>= result_of p))
            (omega (arith, length-append before (op ∷ [])))
            (run-straight (before ++ op ∷ []) code s' h.1 next)))

  top_of : (r : Result SlotValue) → ((r >>= λ v. straight p [] (v ∷ [])) >>= result_of p) ≡ r
  unfolding ◌>>=◌ straight result_of pop
  top_of (ok v) = refl
  top_of (err failure) = refl

  -- An expression whose operations are the postfix code of a tree that takes at most 64 stack
  -- entries evaluates to the value of the tree, or stops with the error of the first operation, from
  -- left to right, that fails.
  pub eval-postfix : (t : Tree) → p.ops ≡ postfix t → needs t ≤ 64 → eval p ≡ some (value_of p t)
  unfolding eval
  eval-postfix t e h =
      let nil = append-nil (postfix t) in
      let run_all =
        run-straight [] p.ops [] (subst (All IsStraight) (sym e) (postfix-IsStraight t)) refl in
      let code =
        ap (λ c. straight p c []) (e ∙ sym nil) ∙ straight-postfix p t [] [] (omega (arith, h)) in
      run_all ∙ ap (λ r. some r) (ap (λ r. r >>= result_of p) code ∙ top_of (value_of p t))
