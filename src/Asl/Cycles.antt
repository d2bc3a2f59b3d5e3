-- ===== src/Asl/Cycles.antt =====
-- The cycles of a machine, by depth-first colouring (crates/twerk-core/src/asl/validation.rs).
pub mod Sound
pub mod Walk
pub mod Search
use twerk.Prelude.{
  ℕ, zero, suc, String, Bool, true, false, Option, none, some, List, [], ◌∷◌, ◌++◌, if◌then◌else◌,
  str_eq, length, keep,
}
use twerk.Map.{Map, get, insert}
use twerk.Asl.Machine.{State, contains_key}
use twerk.Asl.Graph.{contains, names, successors}

pub data Color : Type 0 where
  white gray black : Color

pub record Dfs : Type 0 where
  pub color : Map Color
  pub path : List String
  pub cycles : List (List String)

-- `path[idx..]` from the first position of the target, none where it is not on the path.
unfoldable pub path_from : String → List String → Option (List String)
path_from target [] = none
path_from target (n ∷ path) =
    let rest = path_from target path in if str_eq n target then some (n ∷ path) else rest

abbrev pub push_cycle : Option (List String) → Dfs → Dfs
push_cycle none d = d
push_cycle (some cycle) d = record d { cycles = d.cycles ++ cycle ∷ [] }

-- What is done at a target of the given color; `visit` is the recursive call.
unfoldable pub meet : (visit : String → Dfs → Option Dfs) → String → Option Color → Dfs → Option Dfs
unfolding path_from
meet visit target (some gray) d = some (push_cycle (path_from target d.path) d)
meet visit target (some white) d = visit target d
meet visit target _ d = some d

abbrev pub then_do : Option Dfs → (Dfs → Option Dfs) → Option Dfs
then_do none rest = none
then_do (some d) rest = rest d

-- The loop over the targets: those that are no state are passed over.
unfoldable pub meet_all :
    Map State → (visit : String → Dfs → Option Dfs) → List String → Dfs → Option Dfs
unfolding meet
meet_all m visit [] d = some d
meet_all m visit (target ∷ targets) d =
    then_do (if contains_key m target then meet visit target (get d.color target) d else some d)
      (meet_all m visit targets)

-- `path.pop()`.
unfoldable pub pop : List String → List String
pop [] = []
pop (x ∷ []) = []
pop (x ∷ y ∷ path) = x ∷ pop (y ∷ path)

abbrev pub enter : String → Dfs → Dfs
enter node d = record d { color = insert d.color node gray; path = d.path ++ node ∷ [] }

unfoldable pub leave : String → Dfs → Dfs
unfolding pop
leave node d = record d { color = insert d.color node black; path = pop d.path }

-- The fuel is the depth of the recursion.
unfoldable pub dfs_visit : Map State → ℕ → String → Dfs → Option Dfs
unfolding meet_all successors leave
dfs_visit m zero node d = none
dfs_visit m (suc fuel) node d =
    then_do (meet_all m (dfs_visit m fuel) (successors m node) (enter node d))
      (λ d'. some (leave node d'))

abbrev pub visit_if_white : Option Color → Option Dfs → Dfs → Option Dfs
visit_if_white (some white) visited d = visited
visit_if_white _ visited d = some d

-- The loop over the states that are reachable.
unfoldable pub visit_from : Map State → ℕ → List String → Dfs → Option Dfs
unfolding dfs_visit
visit_from m fuel [] d = some d
visit_from m fuel (start ∷ starts) d =
    then_do (visit_if_white (get d.color start) (dfs_visit m fuel start d) d)
      (visit_from m fuel starts)

unfoldable pub whiten : List String → Map Color
whiten [] = []
whiten (name ∷ rest) = (name, white) ∷ whiten rest

abbrev pub cycles_of : Option Dfs → Option (List (List String))
cycles_of none = none
cycles_of (some d) = some d.cycles

-- Every state that is searched from is white at first.
unfoldable pub blank : List String → Dfs
unfolding whiten
blank starts = record { color = whiten starts; path = []; cycles = [] }

-- A visit that is inside another has one more gray state, so the number of states bounds the depth.
unfoldable pub detect_cycles : Map State → List String → Option (List (List String))
unfolding visit_from blank
detect_cycles m reachable =
    let starts = keep (contains reachable) (names m) in
    cycles_of (visit_from m (suc (length (names m))) starts (blank starts))
