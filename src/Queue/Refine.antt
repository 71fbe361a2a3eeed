-- ===== src/Queue/Refine.antt =====
-- The linked queue behaves as the list of the values that it holds.
use udm.Base.{
  ℕ, suc, ◌+◌, ◌-◌, ◌%◌, ◌^◌, ◌≤◌, ◌≡◌, refl, Option, none, some, true, false, List, [], ◌∷◌, ◌++◌,
  arith, length-append,
}
use udm.Queue.{
  Queue, Node, Ptr, init, pop_head, try_pop, try_pop_into, peek, is_empty, push, push_with_ref,
  call, run, write, dummy,
}
use udm.Queue.Fifo.{Op, Reply}
use udm.Queue.Fifo
use udm.Queue.Seg.{Seg, Holds, Seg-le, Seg-free, Seg-push}

module _ {ℓ} {A : Type ℓ} where
  -- A new queue holds nothing.
  pub init-Holds : (siz : ℕ) → Holds (init {A = A} siz) []
  unfolding init
  init-Holds siz = record { chain = (refl, refl); fresh_gt = omega arith; counted = refl }

  pub pop_head-nil : (q : Queue A) → Holds q [] → pop_head q ≡ some (none, q)
  unfolding pop_head
  pop_head-nil q v = ground arith

  abbrev pub popped : Queue A → Ptr → Queue A
  popped q n = record q {
    nodes = write q.nodes q.head none;
    head = n;
    count = (q.count + 2 ^ 32 - 1) % 2 ^ 32;
  }

  pub pop_head-cons :
      (q : Queue A) (x : A) (xs : List A)
      → Holds q (x ∷ xs)
      → (n : Ptr) × (pop_head q ≡ some (some (record { item = some x; next = n }), popped q n))
        × Holds (popped q n) xs
  unfolding pop_head
  pop_head-cons q x xs v =
      let (n, l, e, g) = v.chain in
      let le : n ≤ q.tail = Seg-le q.nodes q.tail n xs g in
      (
        n,
        ground arith,
        record {
          chain = Seg-free q.nodes q.tail n q.head xs l g;
          fresh_gt = v.fresh_gt;
          counted = omega (arith, v.counted);
        },
      )

  pub is_empty-nil : (q : Queue A) → Holds q [] → is_empty q ≡ true
  unfolding is_empty
  is_empty-nil q v = ground arith

  pub is_empty-cons : (q : Queue A) (x : A) (xs : List A) → Holds q (x ∷ xs) → is_empty q ≡ false
  unfolding is_empty
  is_empty-cons q x xs v =
      let (n, l, e, g) = v.chain in
      let le : n ≤ q.tail = Seg-le q.nodes q.tail n xs g in ground arith

  -- The dummy at the end of the chain.
  Seg-dummy :
      (s : Ptr → Option (Node A)) (t h : Ptr) (xs : List A) → Seg s t h xs → s t ≡ some dummy
  Seg-dummy s t h [] (e, d) = d
  Seg-dummy s t h (x ∷ xs) (n, l, e, g) = Seg-dummy s t n xs g

  abbrev pub pushed : Queue A → A → Queue A
  pushed q x = record q {
    nodes =
        write (write q.nodes q.fresh (some dummy)) q.tail
          (some (record { item = some x; next = q.fresh }));
    fresh = suc q.fresh;
    tail = q.fresh;
    count = (q.count + 1) % 2 ^ 32;
  }

  pub pushed-Holds :
      (q : Queue A) (x : A) (xs : List A) → Holds q xs → Holds (pushed q x) (xs ++ x ∷ [])
  pushed-Holds q x xs v = record {
    chain = Seg-push q.nodes q.tail q.head q.fresh x xs v.fresh_gt v.chain;
    fresh_gt = omega arith;
    counted = omega (arith, v.counted, length-append xs (x ∷ []));
  }

  pub push-pushed : (q : Queue A) (x : A) (xs : List A) → Holds q xs → push q x ≡ some (pushed q x)
  unfolding push
  push-pushed q x xs v = rw (Seg-dummy q.nodes q.tail q.head xs v.chain, push)

  pub push_with_ref-pushed :
      (q : Queue A) (x : A) (xs : List A)
      → Holds q xs
      → push_with_ref q x ≡ some (q.tail, pushed q x)
  unfolding push_with_ref
  push_with_ref-pushed q x xs v = rw (Seg-dummy q.nodes q.tail q.head xs v.chain, push_with_ref)

  -- Every call on a queue that holds `xs` goes through live pointers only, answers as the list `xs`
  -- does, and leaves the queue holding what the call leaves of the list.
  pub call_refines :
      (q : Queue A) (op : Op A) (xs : List A)
      → Holds q xs
      → (q' : Queue A) × (call q op ≡ some ((Fifo.call xs op).0, q')) × Holds q' (Fifo.call xs op).1
  unfolding call Fifo.call
  call_refines q (Op.push x) xs v =
      (pushed q x, rw (push-pushed q x xs v, call), pushed-Holds q x xs v)
  call_refines q (Op.push_with_ref x) xs v =
      (pushed q x, rw (push_with_ref-pushed q x xs v, call), pushed-Holds q x xs v)
  call_refines q Op.try_pop [] v = (q, rw (pop_head-nil q v, try_pop, call), v)
  call_refines q Op.try_pop (x ∷ xs) v =
      let (n, e, w) = pop_head-cons q x xs v in (popped q n, rw (e, try_pop, call), w)
  call_refines q (Op.try_pop_into y) [] v = (q, rw (pop_head-nil q v, try_pop_into, call), v)
  call_refines q (Op.try_pop_into y) (x ∷ xs) v =
      let (n, e, w) = pop_head-cons q x xs v in (popped q n, rw (e, try_pop_into, call), w)
  call_refines q Op.peek [] v = (q, rw (pop_head-nil q v, peek, call), v)
  call_refines q Op.peek (x ∷ xs) v =
      let (n, e, w) = pop_head-cons q x xs v in (popped q n, rw (e, peek, call), w)
  call_refines q Op.is_empty [] v = (q, rw (is_empty-nil q v, call), v)
  call_refines q Op.is_empty (x ∷ xs) v = (q, rw (is_empty-cons q x xs v, call), v)
  call_refines q Op.get_count xs v = (q, ground (arith, v.counted), v)

  -- No sequence of calls tells a queue that holds `xs` from the list `xs`, and none goes through a
  -- dead pointer.
  pub run_refines :
      (ops : List (Op A)) (q : Queue A) (xs : List A)
      → Holds q xs
      → run q ops ≡ some (Fifo.run xs ops)
  unfolding run Fifo.run
  run_refines [] q xs v = refl
  run_refines (op ∷ ops) q xs v =
      let (q', e, w) = call_refines q op xs v in rw (e, run) (rw (run_refines ops q' _ w))
