-- ===== src/Queue.antt =====
-- circular_pipeline.hpp: `threadsafe_queue`, a singly linked list that ends in a dummy node, to which
-- `tail` points. Nodes stand at addresses of a store; an address is never given out twice, and 0 is
-- the null pointer. `none` as the result of a method is an access through a pointer to no live node.
-- One call runs at a time here: the two mutexes make each method one step.
pub mod Fifo
pub mod Seg
pub mod Refine
pub mod Threads
pub mod Interleaved
mod Tests
mod ThreadsTests
use udm.Base.{
  ℕ, suc, ◌+◌, ◌-◌, ◌%◌, ◌^◌, Option, none, some, Bool, true, false, ◌==◌, if◌then◌else◌, List, [],
  ◌∷◌,
}
use udm.Queue.Fifo.{Op, Reply}
use udm.Queue.Fifo

abbrev pub Ptr : Type 0
Ptr = ℕ

-- `data` is a shared pointer, null in the dummy node.
pub record Node {ℓ} (A : Type ℓ) : Type ℓ where
  pub item : Option A
  pub next : Ptr

abbrev pub Store {ℓ} : Type ℓ → Type ℓ
Store A = Ptr → Option (Node A)

unfoldable pub write {ℓ} : {A : Type ℓ} → Store A → Ptr → Option (Node A) → Store A
write s p c a = if a == p then c else s a

pub record Queue {ℓ} (A : Type ℓ) : Type ℓ where
  pub nodes : Store A
  pub fresh : Ptr
  pub head : Ptr
  pub tail : Ptr
  -- an `int`, as its bit pattern
  pub count : ℕ
  pub size : ℕ

module _ {ℓ} {A : Type ℓ} where
  abbrev pub dummy : Node A
  dummy = record { item = none; next = 0 }

  -- The constructor.
  unfoldable pub init : ℕ → Queue A
  unfolding write
  init siz = record {
    nodes = write (λ _. none) 1 (some dummy);
    fresh = 2;
    head = 1;
    tail = 1;
    count = 0;
    size = siz;
  }

  -- The node is handed to the caller, who lets go of it at the end of the call.
  unfoldable pub pop_head : Queue A → Option (Option (Node A) × Queue A)
  unfolding write
  pop_head q = if q.head == q.tail then some (none, q) else elim (q.nodes q.head) [
    | none ↦ none
    | some old_head ↦ some (
      some old_head,
      record q {
        nodes = write q.nodes q.head none;
        head = old_head.next;
        count = (q.count + 2 ^ 32 - 1) % 2 ^ 32;
      },
    )
  ]

  abbrev item_of : Option (Node A) → Option A
  item_of none = none
  item_of (some n) = n.item

  -- `std::shared_ptr<T> try_pop()`: `none` inside is the null pointer.
  unfoldable pub try_pop : Queue A → Option (Option A × Queue A)
  unfolding pop_head
  try_pop q = elim (pop_head q) [ none ↦ none | some (n, q') ↦ some (item_of n, q') ]

  -- `bool try_pop(T &value)`: the new value of the reference comes back beside the result. A null
  -- `data` behind a node would be dereferenced.
  unfoldable pub try_pop_into : Queue A → A → Option (Bool × A × Queue A)
  unfolding pop_head
  try_pop_into q value = elim (pop_head q) [
    | none ↦ none
    | some (none, q') ↦ some (false, value, q')
    | some (some n, q') ↦ elim n.item [ none ↦ none | some v ↦ some (true, v, q') ]
  ]

  abbrev is_node : Option (Node A) → Bool
  is_node none = false
  is_node (some _) = true

  -- `peek`, which takes the head out as `try_pop` does.
  unfoldable pub peek : Queue A → Option (Bool × Queue A)
  unfolding pop_head
  peek q = elim (pop_head q) [ none ↦ none | some (n, q') ↦ some (is_node n, q') ]

  unfoldable pub is_empty : Queue A → Bool
  is_empty q = if q.head == q.tail then true else false

  -- `pushWithRef`: the pointer to the stored value is told by the node that holds it.
  unfoldable pub push_with_ref : Queue A → A → Option (Ptr × Queue A)
  unfolding write
  push_with_ref q new_value = elim (q.nodes q.tail) [
    | none ↦ none
    | some old_tail ↦ some (
      q.tail,
      record q {
        nodes =
            write (write q.nodes q.fresh (some dummy)) q.tail
              (some (record { item = some new_value; next = q.fresh }));
        fresh = suc q.fresh;
        tail = q.fresh;
        count = (q.count + 1) % 2 ^ 32;
      },
    )
  ]

  unfoldable pub push : Queue A → A → Option (Queue A)
  unfolding write
  push q new_value = elim (q.nodes q.tail) [
    | none ↦ none
    | some old_tail ↦ some (record q {
      nodes =
          write (write q.nodes q.fresh (some dummy)) q.tail
            (some (record { item = some new_value; next = q.fresh }));
      fresh = suc q.fresh;
      count = (q.count + 1) % 2 ^ 32;
      tail = q.fresh;
    })
  ]

  unfoldable pub get_count : Queue A → ℕ
  get_count q = q.count

  -- One call of a client, with what the client sees of it.
  unfoldable pub call : Queue A → Op A → Option (Reply A × Queue A)
  unfolding try_pop try_pop_into peek is_empty push_with_ref push get_count
  call q (Op.push x) = elim (push q x) [ none ↦ none | some q' ↦ some (Reply.unit, q') ]
  call q (Op.push_with_ref x) = elim (push_with_ref q x) [
    | none ↦ none
    | some (_, q') ↦ some (Reply.unit, q')
  ]
  call q Op.try_pop = elim (try_pop q) [ none ↦ none | some (r, q') ↦ some (Reply.item r, q') ]
  call q (Op.try_pop_into v) = elim (try_pop_into q v) [
    | none ↦ none
    | some (b, v', q') ↦ some (Reply.into b v', q')
  ]
  call q Op.peek = elim (peek q) [ none ↦ none | some (b, q') ↦ some (Reply.test b, q') ]
  call q Op.is_empty = some (Reply.test (is_empty q), q)
  call q Op.get_count = some (Reply.number (get_count q), q)

  -- The replies to a sequence of calls; `none` if one of them goes through a dead pointer.
  unfoldable pub run : Queue A → List (Op A) → Option (List (Reply A))
  unfolding call
  run q [] = some []
  run q (op ∷ ops) = elim (call q op) [
    | none ↦ none
    | some (r, q') ↦ elim (run q' ops) [ none ↦ none | some rs ↦ some (r ∷ rs) ]
  ]
