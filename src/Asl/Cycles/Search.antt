-- ===== src/Asl/Cycles/Search.antt =====
-- The search for cycles, from a step to a visit: it returns, the cycles that it pushes are cycles, and
-- where it pushes none the states that it leaves behind are finished.
use twerk.Prelude.{
  ℕ, String, ◌≡◌, refl, sym, subst, ◌∙◌, ◌⊎◌, inl, inr, Bool, true, false, Option, none, some, List,
  [], ◌∷◌, ◌++◌, ◌≤◌, Has, All, All-append, arith, str_eq, eq_iff, Bool-cases, if◌then◌else◌,
}
use twerk.Map.{Map, get, insert, get-insert}
use twerk.Asl.Machine.{State, contains_key}
use twerk.Asl.Graph.Edges.{Edge}
use twerk.Asl.Cycles.{
  Color, white, gray, black, Dfs, path_from, push_cycle, meet, then_do, meet_all,
}
use twerk.Asl.Cycles.Walk.{
  whites, some_inj, Leads, IsCycle, path_from-IsCycle, path_from-found, Finished,
}

-- A lookup after an insertion finds the new value, or what was there.
pub get-insert_cases :
    (c : Map Color) (k j : String) (x : Color)
    → ((k ≡ j) × (get (insert c k x) j ≡ some x)) ⊎ (get (insert c k x) j ≡ get c j)
get-insert_cases c k j x = elim (Bool-cases (str_eq k j)) [
  | inl e ↦ inl ((eq_iff k j).0 e, get-insert c k j x ∙ rw e refl)
  | inr e ↦ inr (get-insert c k j x ∙ rw e refl)
]

append-ne : {A : Type 0} (xs : List A) (x : A) → ¬ (xs ++ x ∷ [] ≡ [])
append-ne [] x h = cc
append-ne (y ∷ xs) x h = cc

-- What a step of the search keeps.
module _ (m : Map State) where
  pub record Keeps (d d' : Dfs) : Type 0 where
    pub path : d'.path ≡ d.path
    pub fewer : whites d'.color ≤ whites d.color
    pub sound : All (IsCycle m) d.cycles → All (IsCycle m) d'.cycles
    pub none_before : d'.cycles ≡ [] → d.cycles ≡ []

  pub Keeps-refl : (d : Dfs) → Keeps d d
  Keeps-refl d = record { path = refl; fewer = omega arith; sound = λ h. h; none_before = λ h. h }

  Keeps-trans : {d e f : Dfs} → Keeps d e → Keeps e f → Keeps d f
  Keeps-trans h k = record {
    path = k.path ∙ h.path;
    fewer = omega arith;
    sound = λ s. k.sound (h.sound s);
    none_before = λ s. h.none_before (k.none_before s);
  }

-- The names that are searched: a state that is a target of one of them is one of them.
module _ (m : Map State) (starts : List String) where
  abbrev pub IsClosed : Type 0
  IsClosed = (u v : String) → Has u starts → Edge m u v → contains_key m v ≡ true → Has v starts

  -- The colors, where the finished names are `done`.
  pub record Inv (d : Dfs) (done : List String) : Type 0 where
    pub left : (v : String) → get d.color v ≡ some black → Has v done
    pub on_path : (v : String) → get d.color v ≡ some gray → Has v d.path
    pub colored : (v : String) → Has v starts → (c : Color) × (get d.color v ≡ some c)
    pub finished : Finished m done

  abbrev pub Within : List String → List String → Type 0
  Within done done' = (v : String) → Has v done → Has v done'

  -- Without a cycle, more names are finished, and of them `Q` holds.
  abbrev pub Reports : (List String → Type 0) → Dfs → Dfs → Type 0
  Reports Q d d' =
      (done : List String)
      → Inv d done
      → d'.cycles ≡ []
      → (done' : List String) × Inv d' done' × Within done done' × Q done'

  abbrev pub Runs : (List String → Type 0) → Option Dfs → Dfs → Type 0
  Runs Q r d = (d' : Dfs) × (r ≡ some d') × Keeps m d d' × Reports Q d d'

  pub idle :
      {Q : List String → Type 0} (d : Dfs)
      → ((done : List String) → Inv d done → Q done)
      → Runs Q (some d) d
  idle d q = (d, refl, Keeps-refl m d, λ done i e. (done, i, (λ v h. h), q done i))

  -- One step after another.
  pub then_do-Runs :
      {P Q : List String → Type 0} (r : Option Dfs) (rest : Dfs → Option Dfs) (d : Dfs)
      → ((a b : List String) → Within a b → P a → P b)
      → Runs P r d
      → ((e : Dfs) → Keeps m d e → Runs Q (rest e) e)
      → Runs (λ done. P done × Q done) (then_do r rest) d
  then_do-Runs none rest d mono (e, p, k, s) h = absurd (cc p)
  then_do-Runs (some x) rest d mono (e, p, k, s) h =
      let (f, q, j, t) = h e k in
      (
        f,
        subst (λ y. rest y ≡ some f) (sym (some_inj p)) q,
        Keeps-trans m k j,
        λ done i none_found.
            let (done₁, i₁, w₁, q₁) = s done i (j.none_before none_found) in
            let (done₂, i₂, w₂, q₂) = t done₁ i₁ none_found in
            (done₂, i₂, (λ v u. w₂ v (w₁ v u)), (mono done₁ done₂ w₂ q₁, q₂)),
      )

  abbrev pub Visits : (String → Dfs → Option Dfs) → ℕ → Type 0
  Visits visit n =
      (target : String) (d : Dfs)
      → Has target starts
      → get d.color target ≡ some white
      → whites d.color ≤ n
      → Leads m d.path target
      → Runs (Has target) (visit target d) d

  push_cycle-Runs :
      {Q : List String → Type 0} (c : List String) (d : Dfs)
      → IsCycle m c
      → Runs Q (some (push_cycle (some c) d)) d
  push_cycle-Runs c d is = (
    _,
    refl,
    record {
      path = refl;
      fewer = omega arith;
      sound = λ s. All-append (IsCycle m) d.cycles (c ∷ []) s (is, tt);
      none_before = λ e. absurd (append-ne d.cycles c e);
    },
    λ done i e. absurd (append-ne d.cycles c e),
  )

  gray-Runs :
      (target : String) (d : Dfs) (o : Option (List String))
      → path_from target d.path ≡ o
      → get d.color target ≡ some gray
      → Leads m d.path target
      → Runs (Has target) (some (push_cycle o d)) d
  gray-Runs target d none e g l = idle d (λ done i.
      let (c, found) = path_from-found m target d.path (i.on_path target g) in
      absurd (cc (sym e ∙ found)))
  gray-Runs target d (some c) e g l = push_cycle-Runs c d (path_from-IsCycle m target d.path l e)

  meet-Runs :
      (visit : String → Dfs → Option Dfs) (n : ℕ)
      → Visits visit n
      → (target : String) (d : Dfs) (o : Option Color) → get d.color target ≡ o
      → Has target starts
      → whites d.color ≤ n
      → Leads m d.path target
      → Runs (Has target) (meet visit target o d) d
  unfolding meet
  meet-Runs visit n v target d (some gray) e i w l = gray-Runs target d _ refl e l
  meet-Runs visit n v target d (some white) e i w l = v target d i e w l
  meet-Runs visit n v target d (some black) e i w l = idle d (λ done inv. inv.left target e)
  meet-Runs visit n v target d none e i w l =
      idle d (λ done inv. let (c, found) = inv.colored target i in absurd (cc (sym e ∙ found)))

  -- What a state's targets have come to when it is left.
  abbrev pub TargetsIn : List String → List String → Type 0
  TargetsIn targets done = (t : String) → Has t targets → contains_key m t ≡ true → Has t done

  abbrev StateIn : String → List String → Type 0
  StateIn target done = contains_key m target ≡ true → Has target done

  pub Runs-mono :
      {P Q : List String → Type 0} (r : Option Dfs) (d : Dfs)
      → ((done : List String) → P done → Q done)
      → Runs P r d
      → Runs Q r d
  Runs-mono r d f (e, p, k, s) = (
    e,
    p,
    k,
    λ done i none_found. let (done', i', w, q) = s done i none_found in (done', i', w, f done' q),
  )

  if-Runs :
      (target : String) (b : Bool) (r : Option Dfs) (d : Dfs)
      → contains_key m target ≡ b
      → (contains_key m target ≡ true → Runs (Has target) r d)
      → Runs (StateIn target) (if b then r else some d) d
  if-Runs target true r d e h = Runs-mono r d (λ done i k. i) (h e)
  if-Runs target false r d e h = idle d (λ done i k. absurd (cc (sym e ∙ k)))

  pub meet_all-Runs :
      (visit : String → Dfs → Option Dfs) (n : ℕ)
      → Visits visit n
      → (targets : List String) (d : Dfs)
      → ((t : String) → Has t targets → contains_key m t ≡ true → Has t starts)
      → whites d.color ≤ n
      → ((t : String) → Has t targets → Leads m d.path t)
      → Runs (TargetsIn targets) (meet_all m visit targets d) d
  unfolding meet_all
  meet_all-Runs visit n v [] d c w l = idle d (λ done i t h. absurd h)
  meet_all-Runs visit n v (target ∷ targets) d c w l =
      Runs-mono _ d
        (λ done (first, others) t h. elim h [
          | inl e ↦ subst (λ x. StateIn x done) e first
          | inr i ↦ others t i
        ])
        (then_do-Runs _ (meet_all m visit targets) d (λ a b within p k. within target (p k))
          (if-Runs target (contains_key m target) _ d refl (λ k.
            meet-Runs visit n v target d (get d.color target) refl (c target (inl refl) k) w
              (l target (inl refl))))
          (λ e k.
            meet_all-Runs visit n v targets e (λ t i. c t (inr i)) (omega (arith, k.fewer))
              (λ x i. subst (λ p. Leads m p x) (sym k.path) (l x (inr i)))))
