-- ===== src/Asl/Cycles/Walk.antt =====
-- Colors, walks and cycles, as the search for cycles meets them.
use twerk.Prelude.{
  ℕ, suc, String, ◌≡◌, refl, sym, ap, subst, inl, inr, true, some, List, [], ◌∷◌, ◌++◌, ◌≤◌, length,
  Has, arith, str_eq, eq_iff, Bool-cases,
}
use twerk.Map.{Map, get, insert}
use twerk.Asl.Machine.{State, contains_key}
use twerk.Asl.Graph.Edges.{Edge}
use twerk.Asl.Cycles.{Color, white, gray, black, path_from, pop, whiten}

-- The entries that are white: the states at which no visit began.
abbrev pub whites : Map Color → ℕ
whites [] = 0
whites ((k, white) ∷ c) = suc (whites c)
whites ((k, gray) ∷ c) = whites c
whites ((k, black) ∷ c) = whites c

pub whites-gray :
    (c : Map Color) (k : String) → get c k ≡ some white → suc (whites (insert c k gray)) ≡ whites c
unfolding get insert
whites-gray [] k h = absurd (cc)
whites-gray ((j, white) ∷ c) k h = ground (arith, whites-gray c k)
whites-gray ((j, gray) ∷ c) k h = ground (arith, whites-gray c k)
whites-gray ((j, black) ∷ c) k h = ground (arith, whites-gray c k)

pub whites-black : (c : Map Color) (k : String) → whites (insert c k black) ≤ whites c
unfolding insert
whites-black [] k = omega arith
whites-black ((j, white) ∷ c) k = ground (arith, whites-black c k)
whites-black ((j, gray) ∷ c) k = ground (arith, whites-black c k)
whites-black ((j, black) ∷ c) k = ground (arith, whites-black c k)

pub pop-snoc : (path : List String) (x : String) → pop (path ++ x ∷ []) ≡ path
unfolding pop
pop-snoc [] x = refl
pop-snoc (y ∷ []) x = refl
pop-snoc (y ∷ z ∷ path) x = ap (λ p. y ∷ p) (pop-snoc (z ∷ path) x)

pub some_inj : {A : Type 0} {x y : A} → some x ≡ some y → x ≡ y
some_inj h = cc h

pub whites-whiten : (l : List String) → whites (whiten l) ≡ length l
unfolding whiten
whites-whiten [] = refl
whites-whiten (x ∷ l) = ap suc (whites-whiten l)

module _ (m : Map State) where
  -- A walk over the names of a list to a last one.
  abbrev pub Walk : String → List String → String → Type 0
  Walk u [] v = Edge m u v
  Walk u (w ∷ path) v = Edge m u w × Walk w path v

  abbrev pub Leads : List String → String → Type 0
  Leads [] v = Unit
  Leads (u ∷ path) v = Walk u path v

  -- A cycle: a walk from its first name back to it.
  abbrev pub IsCycle : List String → Type 0
  IsCycle [] = ⊥
  IsCycle (u ∷ path) = Walk u path u

  Walk-snoc :
      (u : String) (path : List String) (v w : String)
      → Walk u path v
      → Edge m v w
      → Walk u (path ++ v ∷ []) w
  Walk-snoc u [] v w h e = (h, e)
  Walk-snoc u (x ∷ path) v w h e = (h.0, Walk-snoc x path v w h.1 e)

  pub Leads-snoc :
      (path : List String) (v w : String) → Leads path v → Edge m v w → Leads (path ++ v ∷ []) w
  Leads-snoc [] v w h e = e
  Leads-snoc (u ∷ path) v w h e = Walk-snoc u path v w h e

  Leads-tail : (u : String) (path : List String) (v : String) → Leads (u ∷ path) v → Leads path v
  Leads-tail u [] v h = tt
  Leads-tail u (w ∷ path) v h = h.1

  -- The part of the path from the target on, which leads back to the target.
  pub path_from-IsCycle :
      (v : String) (path : List String) {cycle : List String}
      → Leads path v
      → path_from v path ≡ some cycle
      → IsCycle cycle
  unfolding path_from
  path_from-IsCycle v [] h e = absurd (cc)
  path_from-IsCycle v (u ∷ path) {cycle} h e = elim (Bool-cases (str_eq u v)) [
    | inl same ↦
        let found = some_inj (rw same at e) in
        subst IsCycle found (subst (λ x. Walk u path x) (sym ((eq_iff u v).0 same)) h)
    | inr other ↦ path_from-IsCycle v path (Leads-tail u path v h) (rw other at e)
  ]

  -- A name on the path is found there.
  pub path_from-found :
      (v : String) (path : List String)
      → Has v path
      → (cycle : List String) × (path_from v path ≡ some cycle)
  unfolding path_from
  path_from-found v [] i = absurd i
  path_from-found v (u ∷ path) (inl e) = (u ∷ path, rw ((eq_iff u v).1 e) refl)
  path_from-found v (u ∷ path) (inr i) =
      let (cycle, e) = path_from-found v path i in
      elim (Bool-cases (str_eq u v)) [
        | inl same ↦ (u ∷ path, rw same refl)
        | inr other ↦ (cycle, rw other e)
      ]

  -- Names, the last first, of which each was left after all its targets: what the search leaves
  -- behind where it meets no cycle.
  abbrev pub Finished : List String → Type 0
  Finished [] = Unit
  Finished (n ∷ rest) =
      ((v : String) → Edge m n v → contains_key m v ≡ true → Has v rest) × Finished rest

  target-is_state : (u v : String) → Edge m u v → contains_key m u ≡ true
  target-is_state u v (s, e, t) = rw e refl

  pub start-is_state :
      (u : String) (path : List String) (v : String) → Walk u path v → contains_key m u ≡ true
  start-is_state u [] v w = target-is_state u v w
  start-is_state u (x ∷ path) v w = target-is_state u x w.0

  -- A walk between states stays among the names that were left.
  Finished-walk :
      (done : List String) (u : String) (path : List String) (v : String)
      → Finished done
      → Has u done
      → Walk u path v
      → contains_key m v ≡ true
      → Has v done
  Finished-walk (n ∷ rest) u path v f (inr i) w k = inr (Finished-walk rest u path v f.1 i w k)
  Finished-walk (n ∷ rest) u [] v f (inl e) w k = inr (f.0 v (subst (λ x. Edge m x v) (sym e) w) k)
  Finished-walk (n ∷ rest) u (x ∷ path) v f (inl e) w k =
      let there = f.0 x (subst (λ y. Edge m y x) (sym e) w.0) (start-is_state x path v w.1) in
      inr (Finished-walk rest x path v f.1 there w.1 k)
  Finished-walk [] u path v f i w k = absurd i

  -- So there is no cycle among them.
  pub Finished-acyclic :
      (done : List String) (u : String) (path : List String)
      → Finished done
      → Has u done
      → ¬ Walk u path u
  Finished-acyclic [] u path f i w = absurd i
  Finished-acyclic (n ∷ rest) u path f (inr i) w = Finished-acyclic rest u path f.1 i w
  Finished-acyclic (n ∷ rest) u [] f (inl e) w =
      let k = target-is_state u u w in
      Finished-acyclic rest u [] f.1 (f.0 u (subst (λ x. Edge m x u) (sym e) w) k) w
  Finished-acyclic (n ∷ rest) u (x ∷ path) f (inl e) w =
      let there = f.0 x (subst (λ y. Edge m y x) (sym e) w.0) (start-is_state x path u w.1) in
      Finished-acyclic rest u (x ∷ path) f.1
        (Finished-walk rest x path u f.1 there w.1 (target-is_state u x w.0)) w
