-- ===== src/EventLoop/MacrotaskQueue.antt =====
-- runtime/src/event_loop/macrotasks.rs: `MacrotaskQueue`. The `HashMap` is an association list in
-- the order of its iteration, which no theorem relies on. A `u32` and a `u8` wrap.
pub mod Ids
pub mod Ready
use spiderfire.Prelude.{
  ℕ, ◌+◌, ◌%◌, ◌^◌, Bool, true, false, not, List, [], ◌∷◌, Option, none, some, ltb, leb, ◌==◌,
  if◌then◌else◌, is_empty as empty_list,
}
use spiderfire.EventLoop.Macrotask.{Macrotask, timer, terminate, remaining}
use spiderfire.EventLoop.Macrotask

pub record MacrotaskQueue : Type 0 where
  pub entries : List (ℕ × Macrotask)
  pub nesting : ℕ
  pub next : Option ℕ
  pub latest : Option ℕ

-- `HashMap::get`, `insert` and `remove`
unfoldable pub get : ℕ → List (ℕ × Macrotask) → Option Macrotask
get id [] = none
get id ((k, m) ∷ rest) = if k == id then some m else get id rest

unfoldable pub insert : ℕ → Macrotask → List (ℕ × Macrotask) → List (ℕ × Macrotask)
insert id m [] = (id, m) ∷ []
insert id m ((k, old) ∷ rest) = if k == id then (k, m) ∷ rest else (k, old) ∷ insert id m rest

unfoldable pub delete : ℕ → List (ℕ × Macrotask) → List (ℕ × Macrotask)
delete id [] = []
delete id ((k, m) ∷ rest) = if k == id then rest else (k, m) ∷ delete id rest

unfoldable pub set_next : ℕ → ℕ → Macrotask → MacrotaskQueue → MacrotaskQueue
set_next now index m q = if leb (remaining now m) 0 then record q { next = some index } else q

abbrev pub next_index : Option ℕ → ℕ
next_index none = 0
next_index (some l) = (l + 1) % 2 ^ 32

abbrev pub index_of : Option ℕ → Option ℕ → ℕ
index_of (some id) latest = id
index_of none latest = next_index latest

-- The macrotask that `next` names, if it is still in the map.
abbrev pub next_task : Option ℕ → List (ℕ × Macrotask) → Option Macrotask
next_task none m = none
next_task (some id) m = get id m

abbrev pub offer : ℕ → ℕ → Macrotask → Option Macrotask → MacrotaskQueue → MacrotaskQueue
offer now index m none q = set_next now index m q
offer now index m (some n) q =
    if ltb (remaining now m) (remaining now n) then set_next now index m q else q

abbrev pub with_nesting : ℕ → Macrotask → ℕ × Macrotask
with_nesting n (timer t) = let n' = (n + 1) % 2 ^ 8 in (n', timer (record t { nesting = n' }))
with_nesting n (Macrotask.signal s) = (n, Macrotask.signal s)
with_nesting n (Macrotask.user u) = (n, Macrotask.user u)

unfoldable pub enqueue : ℕ → Macrotask → Option ℕ → MacrotaskQueue → ℕ × MacrotaskQueue
unfolding get insert set_next remaining
enqueue now m id q =
    let index = index_of id q.latest in
    let q1 = offer now index m (next_task q.next q.entries) q in
    let (n, m') = with_nesting q1.nesting m in
    (index, record q1 { nesting = n; latest = some index; entries = insert index m' q1.entries })

abbrev pub clear_next : ℕ → Option ℕ → Option ℕ
clear_next id none = none
clear_next id (some n) = if n == id then none else some n

abbrev pub is_some {ℓ} : {A : Type ℓ} → Option A → Bool
is_some none = false
is_some (some a) = true

unfoldable pub remove : ℕ → MacrotaskQueue → MacrotaskQueue
unfolding get delete
remove id q =
    if is_some (get id q.entries)
    then record q { entries = delete id q.entries; next = clear_next id q.next }
    else q

-- The closure of `find_next` over the entries: the entries that stay, and the choice so far.
abbrev pub consider : ℕ → ℕ → Macrotask → Option (ℕ × ℕ) → Option (ℕ × ℕ)
consider now id m none = if leb (remaining now m) 0 then some (id, remaining now m) else none
consider now id m (some (best, duration)) =
    if ltb (remaining now m) duration then some (id, remaining now m) else some (best, duration)

unfoldable pub scan :
    (ℕ → Bool) → ℕ → List (ℕ × Macrotask) → Option (ℕ × ℕ) → List (ℕ × Macrotask) × Option (ℕ × ℕ)
unfolding terminate remaining
scan flags now [] best = ([], best)
scan flags now ((id, m) ∷ rest) best =
    let gone = terminate flags m in
    let (kept, found) = scan flags now rest (if gone then best else consider now id m best) in
    (if gone then kept else (id, m) ∷ kept, found)

abbrev pub id_of : Option (ℕ × ℕ) → Option ℕ
id_of none = none
id_of (some (id, d)) = some id

unfoldable pub find_next : (ℕ → Bool) → ℕ → MacrotaskQueue → MacrotaskQueue
unfolding scan
find_next flags now q =
    let (kept, found) = scan flags now q.entries none in
    record q { entries = kept; next = id_of found }

unfoldable pub is_empty : MacrotaskQueue → Bool
is_empty q = empty_list q.entries
