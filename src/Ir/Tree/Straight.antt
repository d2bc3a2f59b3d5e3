-- ===== src/Ir/Tree/Straight.antt =====
-- Code without jumps, and what the postfix code of a tree does to the stack.
use twerk.Prelude.{
  ℕ, suc, ◌+◌, ◌≤◌, ◌<◌, ◌≡◌, refl, sym, ap, ◌∙◌, List, [], ◌∷◌, ◌++◌, arith, length as count,
  lt→not-leb,
}
use mathlib.Core.List.{append_assoc}
use twerk.Outcome.{ok, err, map_ok, ◌>>=◌, assoc, same_rest}
use twerk.Ir.Value.{SlotValue, Result}
use twerk.Ir.Vm.{
  Op, load_slot, load_const, load_accessor, exists, Stack, Program, push, pop, pop2, not_value,
  length_value, binary, unary, load, load_push, stay, execute_op,
}
use twerk.Ir.Tree.{
  Unary, negation, length, Binary, equal, greater, less, greater_equal, less_equal, conjunction,
  disjunction, plus, minus, times, over, mod_by, contained, prefix, suffix, Tree, slot, constant,
  accessor, is_there, apply, combine, unary_op, unary_value, binary_op, binary_value, postfix,
  larger, needs, value_of,
}

needs-pos : (t : Tree) → 1 ≤ needs t
unfolding needs
needs-pos (slot i) = omega arith
needs-pos (constant i) = omega arith
needs-pos (accessor i) = omega arith
needs-pos (is_there i) = omega arith
needs-pos (apply o t) = needs-pos t
needs-pos (combine o l r) = ground (arith, needs-pos l)

needs-combine : (a b : ℕ) → (a ≤ larger a (suc b)) × (suc b ≤ larger a (suc b))
needs-combine a b = ground arith

module _ (p : Program) where
  -- What an operation that is no jump does to the stack.
  abbrev pub effect : Op → Stack → Result Stack
  effect op s = map_ok (λ (pc, s'). s') (execute_op p op 0 s)

  -- Code without jumps, from the first operation to the last.
  unfoldable pub straight : List Op → Stack → Result Stack
  unfolding ◌>>=◌
  straight [] s = ok s
  straight (op ∷ code) s = do s' ← effect op s; straight code s'

  push_lem : (v : SlotValue) (s : Stack) → count s < 64 → push v s ≡ ok (v ∷ s)
  unfolding push
  push_lem v s h = rw (lt→not-leb 64 (count s) h) refl

  pub stay_effect : (pc : ℕ) (r : Result Stack) → map_ok (λ (n, s'). s') (stay p pc r) ≡ r
  stay_effect pc (ok s) = refl
  stay_effect pc (err failure) = refl

  -- A value, or its error, that is pushed where there is room.
  pushed :
      (r : Result SlotValue) (s : Stack)
      → count s < 64
      → (r >>= λ v. push v s) ≡ (r >>= λ v. ok (v ∷ s))
  pushed r s h = same_rest r _ _ (λ v. push_lem v s h)

  loads :
      (op : Op) (s : Stack)
      → effect op s ≡ map_ok (λ (n, s'). s') (stay p 0 (load_push p op s))
      → count s < 64
      → effect op s ≡ (load p op >>= λ v. ok (v ∷ s))
  unfolding load_push
  loads op s e h = e ∙ (stay_effect 0 _ ∙ pushed (load p op) s h)

  unary-effect :
      (o : Unary) (v : SlotValue) (s : Stack)
      → count s < 64
      → effect (unary_op o) (v ∷ s) ≡ ok (unary_value o v ∷ s)
  unfolding execute_op unary pop ◌>>=◌
  unary-effect negation v s h = rw (push_lem (not_value v) s h) refl
  unary-effect length v s h = rw (push_lem (length_value v) s h) refl

  binary-effect : (o : Binary) (s : Stack) → effect (binary_op o) s ≡ binary (binary_value o) s
  unfolding execute_op
  binary-effect equal s = stay_effect 0 _
  binary-effect greater s = stay_effect 0 _
  binary-effect less s = stay_effect 0 _
  binary-effect greater_equal s = stay_effect 0 _
  binary-effect less_equal s = stay_effect 0 _
  binary-effect conjunction s = stay_effect 0 _
  binary-effect disjunction s = stay_effect 0 _
  binary-effect plus s = stay_effect 0 _
  binary-effect minus s = stay_effect 0 _
  binary-effect times s = stay_effect 0 _
  binary-effect over s = stay_effect 0 _
  binary-effect mod_by s = stay_effect 0 _
  binary-effect contained s = stay_effect 0 _
  binary-effect prefix s = stay_effect 0 _
  binary-effect suffix s = stay_effect 0 _

  binary_pair :
      (o : Binary) (a b : SlotValue) (s : Stack)
      → count s < 64
      → effect (binary_op o) (b ∷ a ∷ s) ≡ (binary_value o a b >>= λ v. ok (v ∷ s))
  unfolding binary pop2 pop ◌>>=◌
  binary_pair o a b s h = binary-effect o (b ∷ a ∷ s) ∙ pushed (binary_value o a b) s h

  then_rest :
      (r : Result SlotValue) (rest : List Op) (s : Stack)
      → ((r >>= λ v. ok (v ∷ s)) >>= straight rest) ≡ (r >>= λ v. straight rest (v ∷ s))
  unfolding ◌>>=◌
  then_rest (ok v) rest s = refl
  then_rest (err failure) rest s = refl

  leaf :
      (op : Op) (rest : List Op) (s : Stack)
      → effect op s ≡ map_ok (λ (n, s'). s') (stay p 0 (load_push p op s))
      → count s < 64
      → straight (op ∷ rest) s ≡ (load p op >>= λ v. straight rest (v ∷ s))
  unfolding straight
  leaf op rest s e h = ap (λ r. r >>= straight rest) (loads op s e h) ∙ then_rest (load p op) rest s

  unary_step :
      (o : Unary) (rest : List Op) (v : SlotValue) (s : Stack)
      → count s < 64
      → straight (unary_op o ∷ rest) (v ∷ s) ≡ straight rest (unary_value o v ∷ s)
  unfolding straight ◌>>=◌
  unary_step o rest v s h = ap (λ r. r >>= straight rest) (unary-effect o v s h)

  binary_step :
      (o : Binary) (rest : List Op) (a b : SlotValue) (s : Stack)
      → count s < 64
      → straight (binary_op o ∷ rest) (b ∷ a ∷ s)
        ≡ (binary_value o a b >>= λ v. straight rest (v ∷ s))
  unfolding straight
  binary_step o rest a b s h =
      ap (λ r. r >>= straight rest) (binary_pair o a b s h) ∙ then_rest (binary_value o a b) rest s

  -- The code of a tree pushes its value, or stops with its error, whatever code follows.
  pub straight-postfix :
      (t : Tree) (rest : List Op) (s : Stack)
      → count s + needs t ≤ 64
      → straight (postfix t ++ rest) s ≡ (value_of p t >>= λ v. straight rest (v ∷ s))
  unfolding postfix value_of needs execute_op
  straight-postfix (slot i) rest s h = leaf (load_slot i) rest s refl (omega (arith, h))
  straight-postfix (constant i) rest s h = leaf (load_const i) rest s refl (omega (arith, h))
  straight-postfix (accessor i) rest s h = leaf (load_accessor i) rest s refl (omega (arith, h))
  straight-postfix (is_there i) rest s h = leaf (exists i) rest s refl (omega (arith, h))
  straight-postfix (apply o t) rest s h =
      ap (λ c. straight c s) (append_assoc (postfix t) (unary_op o ∷ []) rest)
      ∙ (straight-postfix t (unary_op o ∷ rest) s h
          ∙ (same_rest (value_of p t) _ _
                (λ v. unary_step o rest v s (omega (arith, needs-pos t, h)))
              ∙ sym (assoc (value_of p t) _ _)))
  straight-postfix (combine o l r) rest s h =
      let op = binary_op o ∷ [] in
      let room = needs-combine (needs l) (needs r) in
      ap (λ c. straight c s)
        (append_assoc (postfix l) (postfix r ++ op) rest
          ∙ ap (λ c. postfix l ++ c) (append_assoc (postfix r) op rest))
      ∙ (straight-postfix l (postfix r ++ binary_op o ∷ rest) s (omega (arith, room, h))
          ∙ (same_rest (value_of p l) _ _ (λ a.
                straight-postfix r (binary_op o ∷ rest) (a ∷ s) (omega (arith, room, h))
                ∙ (same_rest (value_of p r) _ _
                      (λ b. binary_step o rest a b s (omega (arith, room, h)))
                    ∙ sym (assoc (value_of p r) _ _)))
              ∙ sym (assoc (value_of p l) _ _)))
