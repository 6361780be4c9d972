-- ===== src/Tasks.antt =====
-- server_phase5.cpp, TaskQueue and ThreadPool. What a member function does under the mutex is one
-- function here; the waiting of `pop` and the notifications of `push` and `stop`, which come after
-- the mutex is released, are steps of Tasks/Pool.
pub mod Pool
mod Tests
use multi_threaded_proxy_ser.Base.{
  ℕ, Bool, true, false, Option, none, some, List, [], ◌∷◌, ◌++◌, length, ltb, if◌then◌else◌,
  is_empty, not, ◌||◌,
}

pub record TaskQueue {ℓ} (A : Type ℓ) : Type ℓ where
  pub tasks : List A
  pub shutdown : Bool
  pub high_water : ℕ

-- The members' initialisers.
abbrev pub initial {ℓ} : {A : Type ℓ} → TaskQueue A
initial = record { tasks = []; shutdown = false; high_water = 0 }

module _ {ℓ} {A : Type ℓ} where
  -- The part of `push` under the mutex.
  unfoldable pub push : TaskQueue A → A → TaskQueue A
  push q task =
      if q.shutdown
      then q
      else (let tasks = q.tasks ++ task ∷ [] in
          record q {
            tasks = tasks;
            high_water = if ltb q.high_water (length tasks) then length tasks else q.high_water;
          })

  -- The predicate of `cv_.wait` in `pop`.
  abbrev pub can_pop : TaskQueue A → Bool
  can_pop q = not (is_empty q.tasks) || q.shutdown

  -- What `pop` does once its predicate holds: `none` is `nullptr`.
  abbrev pub front : List A → Option A
  front [] = none
  front (t ∷ ts) = some t

  abbrev pub behind : List A → List A
  behind [] = []
  behind (t ∷ ts) = ts

  unfoldable pub pop : TaskQueue A → TaskQueue A × Option A
  pop q = (record q { tasks = behind q.tasks }, front q.tasks)

  -- The part of `stop` under the mutex.
  unfoldable pub stop : TaskQueue A → TaskQueue A
  stop q = record q { shutdown = true }

  abbrev pub depth : TaskQueue A → ℕ
  depth q = length q.tasks
