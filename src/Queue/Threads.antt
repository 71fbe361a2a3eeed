-- ===== src/Queue/Threads.antt =====
-- circular_pipeline.hpp with several threads: the accesses to memory of `push` and of the methods that
-- take out the head, as steps that interleave. One thread at a time holds `tail_mutex`, and one
-- `head_mutex`. A value counts as pushed when `push` has linked it, and as taken when `pop_head` has
-- moved the head.
use udm.Base.{ℕ, suc, ◌+◌, ◌-◌, ◌%◌, ◌^◌, ◌≡◌, ◌≢◌, Option, none, some, List, [], ◌∷◌, ◌++◌}
use udm.Queue.{Queue, Node, Ptr, write, dummy, init}

-- Where the thread that holds `tail_mutex` for a push stands; `free` when none does. `linked p` and
-- the states after it have `p` as the new tail; `loaded p c` has read `c` from `count`.
pub data Pusher : Type 0 where
  free : Pusher
  linked : Ptr → Pusher
  loaded : Ptr → ℕ → Pusher
  stored : Ptr → Pusher

-- Where the thread that holds `head_mutex` stands: `looking t` has `t` from `get_tail`, `taken` has
-- moved the head.
pub data Popper : Type 0 where
  free : Popper
  looking : Ptr → Popper
  taken : Popper
  loaded : ℕ → Popper

-- The queue, what the two threads do, and what was pushed and taken so far.
pub record Threads {ℓ} (A : Type ℓ) : Type ℓ where
  pub queue : Queue A
  pub pusher : Pusher
  pub popper : Popper
  pub pushed : List A
  pub popped : List A

module _ {ℓ} {A : Type ℓ} where
  abbrev pub at : Queue A → Pusher → Popper → List A → List A → Threads A
  at q p r pushed popped = record {
    queue = q;
    pusher = p;
    popper = r;
    pushed = pushed;
    popped = popped;
  }

  -- `tail->data = new_data; tail->next = std::move(p)`, with the new node.
  abbrev pub link : Queue A → A → Queue A
  link q v = record q {
    nodes =
        write (write q.nodes q.fresh (some dummy)) q.tail
          (some (record { item = some v; next = q.fresh }));
    fresh = suc q.fresh;
  }

  abbrev pub set_count : Queue A → ℕ → Queue A
  set_count q c = record q { count = c }

  -- `head = std::move(old_head->next)`; the old node dies with the call.
  abbrev pub unlink : Queue A → Ptr → Queue A
  unlink q n = record q { nodes = write q.nodes q.head none; head = n }

  abbrev pub with_item : Option A → List A → List A
  with_item none xs = xs
  with_item (some x) xs = xs ++ x ∷ []

-- One access of one thread. `get_tail` waits for `tail_mutex`.
pub data Step {ℓ} {A : Type ℓ} : Threads A → Threads A → Type ℓ where
  push_link :
      {q : Queue A} {r : Popper} {xs ys : List A} (v : A)
      → Step (at q Pusher.free r xs ys) (at (link q v) (Pusher.linked q.fresh) r (xs ++ v ∷ []) ys)
  push_load :
      {q : Queue A} {r : Popper} {xs ys : List A} {p : Ptr}
      → Step (at q (Pusher.linked p) r xs ys) (at q (Pusher.loaded p q.count) r xs ys)
  push_store :
      {q : Queue A} {r : Popper} {xs ys : List A} {p : Ptr} {c : ℕ}
      → Step
          (at q (Pusher.loaded p c) r xs ys)
          (at (set_count q ((c + 1) % 2 ^ 32)) (Pusher.stored p) r xs ys)
  push_tail :
      {q : Queue A} {r : Popper} {xs ys : List A} {p : Ptr}
      → Step (at q (Pusher.stored p) r xs ys) (at (record q { tail = p }) Pusher.free r xs ys)
  look :
      {q : Queue A} {xs ys : List A}
      → Step (at q Pusher.free Popper.free xs ys) (at q Pusher.free (Popper.looking q.tail) xs ys)
  leave :
      {q : Queue A} {p : Pusher} {xs ys : List A} {t : Ptr}
      → q.head ≡ t
      → Step (at q p (Popper.looking t) xs ys) (at q p Popper.free xs ys)
  take :
      {q : Queue A} {p : Pusher} {xs ys : List A} {t : Ptr} (old_head : Node A)
      → q.head ≢ t
      → q.nodes q.head ≡ some old_head
      → Step
          (at q p (Popper.looking t) xs ys)
          (at (unlink q old_head.next) p Popper.taken xs (with_item old_head.item ys))
  pop_load :
      {q : Queue A} {p : Pusher} {xs ys : List A}
      → Step (at q p Popper.taken xs ys) (at q p (Popper.loaded q.count) xs ys)
  pop_store :
      {q : Queue A} {p : Pusher} {xs ys : List A} {c : ℕ}
      → Step
          (at q p (Popper.loaded c) xs ys)
          (at (set_count q ((c + 2 ^ 32 - 1) % 2 ^ 32)) p Popper.free xs ys)

-- What the threads can make of a new queue.
pub data Reach {ℓ} {A : Type ℓ} (siz : ℕ) : Threads A → Type ℓ where
  start : Reach siz (at (init siz) Pusher.free Popper.free [] [])
  later : {s u : Threads A} → Reach siz s → Step s u → Reach siz u
