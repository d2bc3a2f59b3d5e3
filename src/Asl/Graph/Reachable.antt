-- ===== src/Asl/Graph/Reachable.antt =====
-- The breadth-first search returns, and what it returns are the states that the start leads to.
use twerk.Prelude.{
  ℕ, zero, suc, String, ◌≡◌, refl, sym, ◌↔◌, ◌⊎◌, inl, inr, true, some, List, [], ◌∷◌, ◌++◌, ◌+◌,
  ◌≤◌, length, Has, arith, subst, Has-append_left, Bool-cases, str_eq,
}
use twerk.Map.{Map, get}
use twerk.Asl.Machine.{State, StateMachine, kind, states, start_at}
use twerk.Asl.Graph.{
  contains, frontier, scan, successors, outgoing_targets, bfs, all_targets, reachable_set,
}
use twerk.Asl.Graph.Edges.{Edge, successors_iff}
use twerk.Asl.Graph.Search.{
  contains_iff, unseen, unseen_le, scan-work, scan-visited, scan_keeps, scan_queues,
  scan-QueuedVisited,
}

-- The walks from a name along the edges of the machine.
pub data Reach (m : Map State) (start : String) : String → Type 0 where
  here : Reach m start start
  step : {u v : String} → Reach m start u → Edge m u v → Reach m start v

Has-append_right : (a : String) (xs ys : List String) → Has a ys → Has a (xs ++ ys)
Has-append_right a [] ys h = h
Has-append_right a (x ∷ xs) ys h = inr (Has-append_right a xs ys h)

-- The targets of a state are among all targets.
successors-all : (m : Map State) (u v : String) → Has v (successors m u) → Has v (all_targets m)
unfolding successors all_targets get
successors-all [] u v h = absurd h
successors-all ((name, s) ∷ rest) u v h = elim (Bool-cases (str_eq name u)) [
  | inl e ↦ Has-append_left v (outgoing_targets (kind s)) (all_targets rest) (rw e at h)
  | inr e ↦
      Has-append_right v (outgoing_targets (kind s)) (all_targets rest)
        (successors-all rest u v (rw e at h))
]

module _ (m : Map State) (start : String) where
  record Inv (visited queue : List String) : Type 0 where
    source : Has start visited
    queued : (a : String) → Has a queue → Has a visited
    sound : (a : String) → Has a visited → Reach m start a
    closed : (u v : String) → Has u visited → Has v (successors m u) → Has u queue ⊎ Has v visited

  Inv-start : Inv (start ∷ []) (start ∷ [])
  Inv-start = record {
    source = inl refl;
    queued = λ a h. h;
    sound = λ a h. elim h [ inl e ↦ subst (Reach m start) e here | inr i ↦ absurd i ];
    closed = λ u v h e. inl h;
  }

  Inv-round :
      (visited queue : List String) (current : String)
      → Inv visited (current ∷ queue)
      → Inv
          (scan (successors m current) (frontier visited queue)).visited
          (scan (successors m current) (frontier visited queue)).queue
  Inv-round visited queue current h =
      let f = frontier visited queue in
      let ts = successors m current in
      record {
        source = (scan-visited ts f start).1 (inl source);
        queued = scan-QueuedVisited ts f (λ a i. queued a (inr i));
        sound = λ a i. elim ((scan-visited ts f a).0 i) [
          | inl j ↦ sound a j
          | inr j ↦
              step (sound current (queued current (inl refl))) ((successors_iff m current a).0 j)
        ];
        closed = λ u v i e. elim (scan_queues ts f u i) [
          | inl j ↦ elim (closed u v j e) [
            | inl (inl c) ↦
                inr ((scan-visited ts f v).1 (inr (subst (λ w. Has v (successors m w)) (sym c) e)))
            | inl (inr q) ↦ inl (scan_keeps ts f u q)
            | inr k ↦ inr ((scan-visited ts f v).1 (inl k))
          ]
          | inr q ↦ inl q
        ];
      }
    where
      open h use {source, queued, sound, closed}

  -- With work for the fuel the search returns, and the invariant holds with an empty queue.
  bfs_returns :
      (fuel : ℕ) (visited queue : List String)
      → Inv visited queue
      → unseen visited (all_targets m) + length queue ≤ fuel
      → (reached : List String) × (bfs m fuel visited queue ≡ some reached) × Inv reached []
  unfolding bfs
  bfs_returns fuel visited [] h w = (visited, refl, h)
  bfs_returns zero visited (current ∷ queue) h w = absurd (omega arith)
  bfs_returns (suc fuel) visited (current ∷ queue) h w =
      let f = frontier visited queue in
      let less = scan-work (all_targets m) (successors m current) f (successors-all m current) in
      bfs_returns fuel _ _ (Inv-round visited queue current h) (omega arith)

  reached_all :
      (reached : List String) → Inv reached [] → {a : String} → Reach m start a → Has a reached
  reached_all reached h here = h.source
  reached_all reached h (step {u} {v} walk e) =
      elim (h.closed u v (reached_all reached h walk) ((successors_iff m u v).1 e)) [
        | inl i ↦ absurd i
        | inr i ↦ i
      ]

-- The search for the reachable states returns, and a name is in the set that it returns exactly
-- when transitions, choice rules and choice defaults lead from the start to it.
pub reachable_set_iff :
    (m : StateMachine)
    → (reached : List String) × (reachable_set m ≡ some reached)
      × ((a : String) → (contains reached a ≡ true) ↔ Reach (states m) (start_at m) a)
unfolding reachable_set
reachable_set_iff m =
    let ss = states m in
    let start = start_at m in
    let bound = unseen_le (start ∷ []) (all_targets ss) in
    let (reached, e, h) =
      bfs_returns ss start (suc (length (all_targets ss))) (start ∷ []) (start ∷ [])
        (Inv-start ss start) (omega arith) in
    (
      reached,
      e,
      λ a.
          let has = contains_iff reached a in
          (λ c. h.sound a (has.0 c), λ walk. has.1 (reached_all ss start reached h walk)),
    )
