-- ===== src/TaskQueue/Inv.antt =====
-- How the circular array of src/task_queue.c holds a sequence of tasks, and that each operation
-- keeps it so.
use concurrent_task_scheduli.Base.{
  ℕ, suc, ◌+◌, ◌-◌, ◌≤◌, ◌<◌, ◌≡◌, ◌∙◌, refl, Bool-cases, inl, inr, true, false, none, some, List,
  [], ◌∷◌, ◌++◌, arith, ltb, ◌==◌, if◌then◌else◌, length, get_elem?, set, replicate, length-set,
  length-replicate, length-append, get_elem?-set_self, get_elem?-set_ne, get_elem?-append,
  get_elem?-lt_length,
}
use concurrent_task_scheduli.TaskQueue.{
  TaskQueue, ok, cells_of, max_capacity, init, is_refused, read_cell,
}

-- The index `k` steps after `head`, round the end of the array.
abbrev pub nth_index : ℕ → ℕ → ℕ → ℕ
nth_index capacity head k = if ltb (head + k) capacity then head + k else head + k - capacity

-- `queue` holds the tasks `ts`, oldest first, in valid form.
pub record Holds (queue : TaskQueue) (ts : List ℕ) : Type 0 where
  pub allocated : queue.items ≡ some (cells_of queue.items)
  pub cells : length (cells_of queue.items) ≡ queue.capacity
  pub some_room : 0 < queue.capacity
  pub bounded : queue.capacity ≤ max_capacity
  pub sized : length ts ≡ queue.size
  pub fits : queue.size ≤ queue.capacity
  pub head_in : queue.head < queue.capacity
  pub tail_in : queue.tail < queue.capacity
  pub meets : queue.tail ≡ nth_index queue.capacity queue.head queue.size
  pub held :
      (k t : ℕ)
      → get_elem? ts k ≡ some t
      → get_elem? (cells_of queue.items) (nth_index queue.capacity queue.head k) ≡ some (some t)

-- A queue that holds tasks passes the checks of the operations.
pub Holds-accepted : {q : TaskQueue} {ts : List ℕ} → Holds q ts → is_refused q ≡ false
unfolding is_refused
Holds-accepted h = ground arith

abbrev pub blank : ℕ → TaskQueue
blank capacity = record {
  items = some (replicate capacity none);
  capacity = capacity;
  size = 0;
  head = 0;
  tail = 0;
}

pub blank-Holds :
    (capacity : ℕ) → 0 < capacity → capacity ≤ max_capacity → Holds (blank capacity) []
blank-Holds capacity p m = record {
  allocated = refl;
  cells = length-replicate capacity none;
  some_room = p;
  bounded = m;
  sized = refl;
  fits = omega arith;
  head_in = p;
  tail_in = p;
  meets = ground arith;
  held = λ k t e. ground arith;
}

pub init-Holds :
    (capacity : ℕ) (old : TaskQueue)
    → 0 < capacity
    → capacity ≤ max_capacity
    → (q : TaskQueue) × (init true capacity old ≡ (ok, q)) × Holds q [] × (q.capacity ≡ capacity)
unfolding init
init-Holds capacity old p m = (blank capacity, ground arith, blank-Holds capacity p m, refl)

-- One more task, at the tail.
abbrev pub longer : TaskQueue → ℕ → TaskQueue
longer q t = record q {
  items = some (set (cells_of q.items) q.tail (some t));
  tail = if q.tail == q.capacity - 1 then 0 else q.tail + 1;
  size = q.size + 1;
}

-- The oldest task taken out.
abbrev pub shorter : TaskQueue → TaskQueue
shorter q = record q {
  items = some (set (cells_of q.items) q.head none);
  head = if q.head == q.capacity - 1 then 0 else q.head + 1;
  size = q.size - 1;
}

module _ {q : TaskQueue} {ts : List ℕ} (h : Holds q ts) (t : ℕ) (room : q.size < q.capacity) where
  open h use {cells, sized, head_in, tail_in, meets, held}

  longer_held :
      (k u : ℕ)
      → get_elem? (ts ++ t ∷ []) k ≡ some u
      → get_elem? (set (cells_of q.items) q.tail (some t)) (nth_index q.capacity q.head k)
        ≡ some (some u)
  longer_held k u e = elim (Bool-cases (k == length ts)) [
    | inl last ↦
        ground
          (arith, get_elem?-append ts t k, get_elem?-set_self (cells_of q.items) q.tail (some t))
    | inr before ↦ ground (
      arith,
      get_elem?-append ts t k,
      get_elem?-lt_length ts k u,
      get_elem?-set_ne (cells_of q.items) q.tail (nth_index q.capacity q.head k) (some t),
      held k u,
    )
  ]

  pub longer-Holds : Holds (longer q t) (ts ++ t ∷ [])
  longer-Holds = record {
    allocated = refl;
    cells = length-set (cells_of q.items) q.tail (some t) ∙ cells;
    some_room = h.some_room;
    bounded = h.bounded;
    sized = omega (arith, length-append ts (t ∷ []));
    fits = omega arith;
    head_in = head_in;
    tail_in = ground arith;
    meets = ground arith;
    held = longer_held;
  }

module _ {q : TaskQueue} {t : ℕ} {ts : List ℕ} (h : Holds q (t ∷ ts)) where
  open h use {cells, sized, fits, some_room, head_in, tail_in, meets, held}

  shorter_held :
      (k u : ℕ)
      → get_elem? ts k ≡ some u
      → get_elem? (cells_of (shorter q).items) (nth_index q.capacity (shorter q).head k)
        ≡ some (some u)
  shorter_held k u e = ground (
    arith,
    get_elem?-lt_length ts k u,
    get_elem?-set_ne (cells_of q.items) q.head (nth_index q.capacity q.head (suc k)) none,
    held (suc k) u,
  )

  pub shorter-Holds : Holds (shorter q) ts
  shorter-Holds = record {
    allocated = refl;
    cells = length-set (cells_of q.items) q.head none ∙ cells;
    some_room = some_room;
    bounded = h.bounded;
    sized = omega arith;
    fits = omega arith;
    head_in = ground arith;
    tail_in = tail_in;
    meets = ground arith;
    held = shorter_held;
  }

  pub oldest : read_cell (cells_of q.items) q.head ≡ some t
  oldest = ground (arith, held 0 t)
