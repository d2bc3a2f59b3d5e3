-- ===== src/Cache.antt =====
-- The cache with expiring items (crates/twerk-infrastructure/src/cache). Keys are texts; the map of
-- the items is the list of its entries. Instants and durations are natural numbers; each operation
-- takes the reading of the clock as `now`. The janitor's thread is not here: what it runs is
-- `delete_expired`.
pub mod Expiring
use twerk.Prelude.{
  ℕ, String, Bool, true, false, ◌&&◌, not, Option, none, some, List, [], ◌∷◌, ◌++◌, ◌+◌, ltb, ◌==◌,
  is_some, map, keep, if◌then◌else◌, unwrap_or,
}
use twerk.Map.{Map, get, insert, remove, values}
use twerk.Outcome.{Outcome, ok, err}

pub data Expiration : Type 0 where
  default never : Expiration
  absolute : ℕ → Expiration

pub record Item (V : Type 0) : Type 0 where
  pub object : V
  pub expiration : Option ℕ

-- `on_evicted` is whether a callback is set, `evicted` what it was called with.
pub record Cache (V : Type 0) : Type 0 where
  pub items : Map (Item V)
  pub cleanup_interval : Option ℕ
  pub shutdown_flag : Bool
  pub default_expiration : Option ℕ
  pub on_evicted : Bool
  pub evicted : List (String × V)

abbrev pub past : ℕ → Option ℕ → Bool
past now none = false
past now (some expiration) = ltb expiration now

abbrev after : ℕ → Option ℕ → Option ℕ
after now none = none
after now (some duration) = some (now + duration)

-- The match of `Item::with_expiration`.
abbrev expires_at : Expiration → Option ℕ → Option ℕ
expires_at default default_exp = default_exp
expires_at never default_exp = none
expires_at (absolute instant) default_exp = some instant

-- No janitor for an interval of zero.
abbrev pub some_interval : Option ℕ → Option ℕ
some_interval none = none
some_interval (some interval) = if interval == 0 then none else some interval

module _ {V : Type 0} where
  abbrev pub new : Cache V
  new = record {
    items = [];
    cleanup_interval = none;
    shutdown_flag = false;
    default_expiration = none;
    on_evicted = false;
    evicted = [];
  }

  abbrev pub with_cleanup : Option ℕ → Cache V
  with_cleanup interval = record new { cleanup_interval = some_interval interval }

  abbrev pub with_expiration_and_cleanup : Option ℕ → Option ℕ → Cache V
  with_expiration_and_cleanup expiration interval = record new {
    cleanup_interval = some_interval interval;
    default_expiration = expiration;
  }

  abbrev pub set_on_evicted : Cache V → Cache V
  set_on_evicted c = record c { on_evicted = true }

  -- `Item::is_expired`.
  unfoldable pub is_expired : ℕ → Item V → Bool
  is_expired now item = past now item.expiration

  abbrev pub store : String → Item V → Cache V → Option (Item V) × Cache V
  store key item c = (get c.items key, record c { items = insert c.items key item })

  -- `Cache::insert`.
  unfoldable pub put : ℕ → String → V → Option ℕ → Cache V → Option (Item V) × Cache V
  put now key value expiration c =
      store key (record { object = value; expiration = after now expiration }) c

  unfoldable pub insert_expiring : ℕ → String → V → Expiration → Cache V → Option (Item V) × Cache V
  insert_expiring now key value expiration c =
      store key
        (record {
          object = value;
          expiration = expires_at expiration (after now c.default_expiration);
        })
        c

  -- The item of a key, unless it has expired.
  unfoldable pub live : ℕ → Option (Item V) → Option (Item V)
  unfolding is_expired
  live now none = none
  live now (some item) = if is_expired now item then none else some item

  abbrev pub object_of : Option (Item V) → Option V
  object_of none = none
  object_of (some item) = some item.object

  -- `Cache::get`.
  unfoldable pub lookup : ℕ → String → Cache V → Option V
  unfolding live
  lookup now key c = object_of (live now (get c.items key))

  unfoldable pub contains : ℕ → String → Cache V → Bool
  unfolding live
  contains now key c = is_some (live now (get c.items key))

  -- The call of the callback, where there is one.
  abbrev pub call_evicted : Cache V → List (String × V) → List (String × V)
  call_evicted c calls = if c.on_evicted then c.evicted ++ calls else c.evicted

  abbrev pub removed : String → Option (Item V) → Cache V → Cache V
  removed key none c = c
  removed key (some item) c = record c {
    items = remove c.items key;
    evicted = call_evicted c ((key, item.object) ∷ []);
  }

  -- `Cache::remove`.
  unfoldable pub take_out : String → Cache V → Option (Item V) × Cache V
  take_out key c = (get c.items key, removed key (get c.items key) c)

  abbrev pub clear : Cache V → Cache V
  clear c = record c { items = [] }

  -- `Cache::close` and `Cache::stop_janitor`.
  abbrev pub close : Cache V → Cache V
  close c = if is_some c.cleanup_interval then record c { shutdown_flag = true } else c

  abbrev pub renewed : ℕ → String → Option (Item V) → Cache V → Bool × Cache V
  renewed expiration key none c = (false, c)
  renewed expiration key (some item) c =
      (true, record c { items = insert c.items key (record item { expiration = some expiration }) })

  -- The item's own expiration is not read.
  unfoldable pub set_expiration : ℕ → String → ℕ → Cache V → Bool × Cache V
  set_expiration now key duration c = renewed (now + duration) key (get c.items key) c

  abbrev pub modified :
      {E : Type 0}
      → String
      → (V → Outcome E (Unit {0}) × V)
      → Option (Item V)
      → Cache V
      → Option (Outcome E (Unit {0})) × Cache V
  modified key f none c = (none, c)
  modified key f (some item) c =
      let (result, object) = f item.object in
      (some result, record c { items = insert c.items key (record item { object = object }) })

  -- The function may write to the value before it fails.
  unfoldable pub modify :
      {E : Type 0}
      → ℕ
      → String
      → (V → Outcome E (Unit {0}) × V)
      → Cache V
      → Option (Outcome E (Unit {0})) × Cache V
  unfolding live
  modify now key f c = modified key f (live now (get c.items key)) c

  abbrev pub all_pass : List (V → Bool) → V → Bool
  all_pass [] v = true
  all_pass (f ∷ filters) v = f v && all_pass filters v

  unfoldable pub list : ℕ → List (V → Bool) → Cache V → List V
  unfolding is_expired
  list now filters c =
      keep (all_pass filters)
        (map (λ item. item.object) (keep (λ item. not (is_expired now item)) (values c.items)))

  unfoldable pub entry_is_live : ℕ → String × Item V → Bool
  unfolding is_expired
  entry_is_live now (key, item) = not (is_expired now item)

  -- `f` passes its own state on; every item is visited, and the answers `true` are counted.
  unfoldable pub visit_all : {S : Type 0} → (String → V → S → Bool × S) → Map (Item V) → S → ℕ × S
  visit_all f [] s = (0, s)
  visit_all f ((key, item) ∷ entries) s =
      let (answer, s') = f key item.object s in
      let (count, final) = visit_all f entries s' in (if answer then count + 1 else count, final)

  unfoldable pub iterate : {S : Type 0} → ℕ → (String → V → S → Bool × S) → Cache V → S → ℕ × S
  unfolding visit_all entry_is_live
  iterate now f c s = visit_all f (keep (entry_is_live now) c.items) s

  -- `keys_to_remove`; `later` is the clock as `is_expired` reads it at each entry.
  unfoldable pub keys_to_remove : ℕ → (String → ℕ) → Map (Item V) → List String
  unfolding is_expired
  keys_to_remove now later [] = []
  keys_to_remove now later ((key, item) ∷ entries) =
      let rest = keys_to_remove now later entries in
      if is_expired (later key) item && past now item.expiration then key ∷ rest else rest

  -- `DashMap::remove` with the value that it took out, for the callback.
  abbrev pub with_object : String → Option (Item V) → List (String × V) → List (String × V)
  with_object key none rest = rest
  with_object key (some item) rest = (key, item.object) ∷ rest

  unfoldable pub remove_keys : List String → Map (Item V) → List (String × V) × Map (Item V)
  remove_keys [] m = ([], m)
  remove_keys (key ∷ keys) m =
      let (rest, left) = remove_keys keys (remove m key) in (with_object key (get m key) rest, left)

  -- `delete_expired_from_map`.
  unfoldable pub delete_expired : ℕ → (String → ℕ) → Cache V → Cache V
  unfolding keys_to_remove remove_keys
  delete_expired now later c =
      let (gone, left) = remove_keys (keys_to_remove now later c.items) c.items in
      record c { items = left; evicted = call_evicted c gone }
