-- ===== src/Asl/Cycles/Sound.antt =====
-- The search for cycles returns, the cycles that it finds are cycles, and it finds one where there is
-- one.
use twerk.Prelude.{
  ℕ, zero, suc, String, ◌≡◌, ◌≢◌, refl, sym, ap, subst, ◌∙◌, ◌⊎◌, inl, inr, Option, none, some,
  List, [], ◌∷◌, ◌++◌, ◌≤◌, length, length-keep, keep, Has, Has-append_left, Has-append_last,
  Has-append_cases, All, arith, str_eq, eq_iff, Bool-cases,
}
use twerk.Map.{Map, get, insert, get-insert_self}
use twerk.Asl.Machine.{State}
use twerk.Asl.Graph.{successors, names, contains}
use twerk.Asl.Graph.Edges.{successors_iff}
use twerk.Asl.Cycles.{
  Color, white, gray, black, Dfs, pop, enter, leave, dfs_visit, visit_if_white, visit_from, whiten,
  cycles_of, blank, detect_cycles,
}
use twerk.Asl.Cycles.Walk.{
  whites, whites-gray, whites-black, whites-whiten, pop-snoc, some_inj, Walk, Leads, IsCycle,
  Leads-snoc, Finished-acyclic,
}
use twerk.Asl.Cycles.Search.{
  get-insert_cases, Keeps, IsClosed, Inv, Runs, idle, then_do-Runs, Visits, TargetsIn,
  meet_all-Runs, Runs-mono,
}

-- A state that is being visited is gray and on the path.
enter-Inv :
    (m : Map State) (starts : List String) (node : String) (d : Dfs) (done : List String)
    → Inv m starts d done
    → Inv m starts (enter node d) done
enter-Inv m starts node d done i = record {
  left = λ v e. elim (get-insert_cases d.color node v gray) [
    | inl (same, found) ↦ absurd (cc (sym found ∙ e))
    | inr other ↦ i.left v (sym other ∙ e)
  ];
  on_path = λ v e. elim (get-insert_cases d.color node v gray) [
    | inl (same, found) ↦
        subst (λ x. Has x (d.path ++ node ∷ [])) same (Has-append_last node d.path)
    | inr other ↦ Has-append_left v d.path (node ∷ []) (i.on_path v (sym other ∙ e))
  ];
  colored = λ v h. elim (get-insert_cases d.color node v gray) [
    | inl (same, found) ↦ (gray, found)
    | inr other ↦ let (c, found) = i.colored v h in (c, other ∙ found)
  ];
  finished = i.finished;
}

-- A state that is left is finished.
leave-Inv :
    (m : Map State) (starts : List String) (node : String) (path : List String) (e : Dfs)
    (done : List String)
    → e.path ≡ path ++ node ∷ []
    → Inv m starts e done
    → TargetsIn m starts (successors m node) done
    → Inv m starts (leave node e) (node ∷ done)
unfolding leave
leave-Inv m starts node path e done p i all = record {
  left = λ v h. elim (get-insert_cases e.color node v black) [
    | inl (same, found) ↦ inl same
    | inr other ↦ inr (i.left v (sym other ∙ h))
  ];
  on_path = λ v h. elim (get-insert_cases e.color node v black) [
    | inl (same, found) ↦ absurd (cc (sym found ∙ h))
    | inr other ↦
        subst (λ l. Has v l) (sym (ap pop p ∙ pop-snoc path node))
          (elim (Has-append_cases v node path
            (subst (λ l. Has v l) p (i.on_path v (sym other ∙ h)))) [
              | inl before ↦ before
              | inr same ↦ absurd (
                  cc (
                    sym (get-insert_self e.color node black)
                    ∙ subst (λ x. get (insert e.color node black) x ≡ some gray) (sym same) h))
            ])
  ];
  colored = λ v h. elim (get-insert_cases e.color node v black) [
    | inl (same, found) ↦ (black, found)
    | inr other ↦ let (c, found) = i.colored v h in (c, other ∙ found)
  ];
  finished = ((λ v edge key. all v ((successors_iff m node v).1 edge) key), i.finished);
}

module _ (m : Map State) (starts : List String) (closed : IsClosed m starts) where
  leave-Keeps :
      (node : String) (d e : Dfs)
      → get d.color node ≡ some white
      → Keeps m (enter node d) e
      → Keeps m d (leave node e)
  unfolding leave
  leave-Keeps node d e white_node k = record {
    path = ap pop k.path ∙ pop-snoc d.path node;
    fewer = omega (arith, whites-black e.color node, whites-gray d.color node white_node, k.fewer);
    sound = k.sound;
    none_before = k.none_before;
  }

  -- With fuel for the white states a visit returns.
  dfs_visit-Runs : (fuel : ℕ) → Visits m starts (dfs_visit m fuel) fuel
  unfolding dfs_visit leave
  dfs_visit-Runs zero node d h e w l = absurd (omega (arith, whites-gray d.color node e))
  dfs_visit-Runs (suc fuel) node d h e w l =
      let (d', p, k, s) =
        meet_all-Runs m starts (dfs_visit m fuel) fuel (dfs_visit-Runs fuel) (successors m node)
          (enter node d) (λ t i key. closed node t h ((successors_iff m node t).0 i) key)
          (omega (arith, whites-gray d.color node e))
          (λ target i. Leads-snoc m d.path node target l ((successors_iff m node target).0 i)) in
      (
        leave node d',
        rw p refl,
        leave-Keeps node d d' e k,
        λ done i none_found.
            let (done', i', within, all) = s done (enter-Inv m starts node d done i) none_found in
            (
              node ∷ done',
              leave-Inv m starts node d.path d' done' k.path i' all,
              (λ v u. inr (within v u)),
              inl refl,
            ),
      )

  visit_from-Runs :
      (fuel : ℕ) (l : List String) (d : Dfs)
      → ((v : String) → Has v l → Has v starts)
      → whites d.color ≤ fuel
      → d.path ≡ []
      → Runs m starts (λ done. (v : String) → Has v l → Has v done) (visit_from m fuel l d) d
  unfolding visit_from
  visit_from-Runs fuel [] d h w e = idle m starts d (λ done i v n. absurd n)
  visit_from-Runs fuel (start ∷ rest) d h w e =
      Runs-mono m starts _ d
        (λ done (first, others) v n. elim n [
          | inl same ↦ subst (λ x. Has x done) same first
          | inr i ↦ others v i
        ])
        (then_do-Runs m starts _ (visit_from m fuel rest) d (λ a b within p. within start p)
          (go (get d.color start) refl)
          (λ d' k.
            visit_from-Runs fuel rest d' (λ v i. h v (inr i)) (omega (arith, k.fewer))
              (k.path ∙ e)))
    where
      go :
          (o : Option Color)
          → get d.color start ≡ o
          → Runs m starts (Has start) (visit_if_white o (dfs_visit m fuel start d) d) d
      go (some white) p =
          dfs_visit-Runs fuel start d (h start (inl refl)) p w
            (subst (λ x. Leads m x start) (sym e) tt)
      go (some gray) p =
          idle m starts d (λ done i. absurd (subst (λ l. Has start l) e (i.on_path start p)))
      go (some black) p = idle m starts d (λ done i. i.left start p)
      go none p = idle m starts d (λ done i.
          let (c, found) = i.colored start (h start (inl refl)) in absurd (cc (sym p ∙ found)))

-- At first every searched state is white, and none is finished.
get-whiten :
    (l : List String) (v : String) → (get (whiten l) v ≡ none) ⊎ (get (whiten l) v ≡ some white)
unfolding get whiten
get-whiten [] v = inl refl
get-whiten (x ∷ l) v = elim (Bool-cases (str_eq x v)) [
  | inl e ↦ inr (rw e refl)
  | inr e ↦ rw e (get-whiten l v)
]

whiten-Has : (l : List String) (v : String) → Has v l → get (whiten l) v ≡ some white
unfolding get whiten
whiten-Has [] v h = absurd h
whiten-Has (x ∷ l) v (inl e) = rw ((eq_iff x v).1 e) refl
whiten-Has (x ∷ l) v (inr h) = elim (Bool-cases (str_eq x v)) [
  | inl e ↦ rw e refl
  | inr e ↦ rw e (whiten-Has l v h)
]

blank-Inv : (m : Map State) (starts : List String) → Inv m starts (blank starts) []
unfolding blank
blank-Inv m starts = record {
  left = λ v e. elim (get-whiten starts v) [
    | inl p ↦ absurd (cc (sym p ∙ e))
    | inr p ↦ absurd (cc (sym p ∙ e))
  ];
  on_path = λ v e. elim (get-whiten starts v) [
    | inl p ↦ absurd (cc (sym p ∙ e))
    | inr p ↦ absurd (cc (sym p ∙ e))
  ];
  colored = λ v h. (white, whiten-Has starts v h);
  finished = tt;
}

-- A cycle through a searched state is not missed.
abbrev pub NoneMissed : Map State → List String → List (List String) → Type 0
NoneMissed m starts cycles =
    (u : String) (path : List String) → Has u starts → Walk m u path u → cycles ≢ []

module _ (m : Map State) (starts : List String) where
  cycles_of-Runs :
      (r : Option Dfs)
      → Runs m starts (λ done. (v : String) → Has v starts → Has v done) r (blank starts)
      → (cycles : List (List String)) × (cycles_of r ≡ some cycles)
        × All (IsCycle m) cycles
        × NoneMissed m starts cycles
  unfolding blank
  cycles_of-Runs none (e, p, k, s) = absurd (cc p)
  cycles_of-Runs (some x) (e, p, k, s) = (
    e.cycles,
    ap (λ y. some y.cycles) (some_inj p),
    k.sound tt,
    λ u path h walk none_found.
        let (done, i, within, all) = s [] (blank-Inv m starts) none_found in
        Finished-acyclic m done u path i.finished (all u h) walk,
  )

-- The search for cycles among names that include the states they lead to returns; every cycle that
-- it reports is one, and it reports some where one of the names is on a cycle.
pub detect_cycles-IsCycle :
    (m : Map State) (reachable : List String)
    → IsClosed m (keep (contains reachable) (names m))
    → (cycles : List (List String)) × (detect_cycles m reachable ≡ some cycles)
      × All (IsCycle m) cycles
      × NoneMissed m (keep (contains reachable) (names m)) cycles
unfolding detect_cycles blank
detect_cycles-IsCycle m reachable closed =
    let starts = keep (contains reachable) (names m) in
    cycles_of-Runs m starts _ (
      visit_from-Runs m starts closed (suc (length (names m))) starts (blank starts) (λ v h. h)
        (omega (arith, whites-whiten starts, length-keep (contains reachable) (names m))) refl)
