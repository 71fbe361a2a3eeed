-- ===== src/Queue/Interleaved.antt =====
-- No interleaving of pushes and pops breaks the queue.
use udm.Base.{
  ℕ, ◌<◌, ◌≤◌, ◌≡◌, ◌≢◌, refl, sym, subst, ap, ◌∙◌, Option, none, some, List, [], ◌∷◌, ◌++◌, arith,
  append_assoc,
}
use udm.Queue.{Queue, Node, Ptr, Store, write, init}
use udm.Queue.Seg.{Seg, Seg-le, Seg-free, Seg-push}
use udm.Queue.Threads.{
  Threads, Pusher, Popper, Step, Reach, start, later, push_link, push_load, push_store, push_tail,
  look, leave, take, pop_load, pop_store, at, unlink, with_item,
}

-- The last node of the chain: the one that `tail` points to, or the one that a push has linked.
abbrev pub last_of : Pusher → Ptr → Ptr
last_of Pusher.free tail = tail
last_of (Pusher.linked p) tail = p
last_of (Pusher.loaded p c) tail = p
last_of (Pusher.stored p) tail = p

-- A tail that was read lies in the chain.
abbrev pub Seen : Popper → Ptr → Ptr → Type 0
Seen Popper.free h last = Unit
Seen (Popper.looking t) h last = (h ≤ t) × (t ≤ last)
Seen Popper.taken h last = Unit
Seen (Popper.loaded c) h last = Unit

Seen-mono : (r : Popper) (h last last' : Ptr) → last ≤ last' → Seen r h last → Seen r h last'
Seen-mono Popper.free h last last' le seen = tt
Seen-mono (Popper.looking t) h last last' le seen = (seen.0, omega (arith, seen.1))
Seen-mono Popper.taken h last last' le seen = tt
Seen-mono (Popper.loaded c) h last last' le seen = tt

module _ {ℓ} {A : Type ℓ} where
  -- What was taken and what the chain still holds is what was pushed.
  pub record IsSound (s : Threads A) : Type ℓ where
    pub held : List A
    pub chain : Seg s.queue.nodes (last_of s.pusher s.queue.tail) s.queue.head held
    pub order : s.popped ++ held ≡ s.pushed
    pub fresh_gt : last_of s.pusher s.queue.tail < s.queue.fresh
    pub seen : Seen s.popper s.queue.head (last_of s.pusher s.queue.tail)

  -- A chain whose head is not the last node begins with a value.
  Seg-first :
      (s : Store A) (t h : Ptr) (xs : List A)
      → Seg s t h xs
      → h ≢ t
      → (x : A) × (rest : List A) × (n : Ptr) × (xs ≡ x ∷ rest)
        × (s h ≡ some (record { item = some x; next = n }))
        × (h < n)
        × Seg s t n rest
  Seg-first s t h [] (e, d) ne = absurd (ne e)
  Seg-first s t h (x ∷ xs) (n, l, e, g) ne = (x, xs, n, refl, e, l, g)

  abbrev node_or : Node A → Option (Node A) → Node A
  node_or d none = d
  node_or d (some n) = n

  -- While `t` was read and is not the head, the head is a live node with a value.
  pub IsSound-head :
      (q : Queue A) (p : Pusher) (t : Ptr) (xs ys : List A)
      → IsSound (at q p (Popper.looking t) xs ys)
      → q.head ≢ t
      → (x : A) × (n : Ptr) × (q.nodes q.head ≡ some (record { item = some x; next = n }))
        × IsSound (at (unlink q n) p Popper.taken xs (ys ++ x ∷ []))
  IsSound-head q p t xs ys i ne =
      let last = last_of p q.tail in
      let not_last : q.head ≢ last = λ e. ne (omega (arith, i.seen.0, i.seen.1, e)) in
      let (x, rest, n, split, e, l, g) = Seg-first q.nodes last q.head i.held i.chain not_last in
      (
        x,
        n,
        e,
        record {
          held = rest;
          chain = Seg-free q.nodes last n q.head rest l g;
          order = append_assoc ys (x ∷ []) rest ∙ ap (λ zs. ys ++ zs) (sym split) ∙ i.order;
          fresh_gt = i.fresh_gt;
          seen = tt;
        },
      )

  Step-IsSound : {s u : Threads A} → Step s u → IsSound s → IsSound u
  Step-IsSound (push_link {q} {r} {xs} {ys} v) i = record {
    held = i.held ++ v ∷ [];
    chain = Seg-push q.nodes q.tail q.head q.fresh v i.held i.fresh_gt i.chain;
    order = sym (append_assoc ys i.held (v ∷ [])) ∙ ap (λ zs. zs ++ v ∷ []) i.order;
    fresh_gt = omega arith;
    seen = Seen-mono r q.head q.tail q.fresh (omega (arith, i.fresh_gt)) i.seen;
  }
  Step-IsSound push_load i = record {
    held = i.held;
    chain = i.chain;
    order = i.order;
    fresh_gt = i.fresh_gt;
    seen = i.seen;
  }
  Step-IsSound push_store i = record {
    held = i.held;
    chain = i.chain;
    order = i.order;
    fresh_gt = i.fresh_gt;
    seen = i.seen;
  }
  Step-IsSound push_tail i = record {
    held = i.held;
    chain = i.chain;
    order = i.order;
    fresh_gt = i.fresh_gt;
    seen = i.seen;
  }
  Step-IsSound (look {q}) i = record {
    held = i.held;
    chain = i.chain;
    order = i.order;
    fresh_gt = i.fresh_gt;
    seen = (Seg-le q.nodes q.tail q.head i.held i.chain, omega arith);
  }
  Step-IsSound (leave e) i = record {
    held = i.held;
    chain = i.chain;
    order = i.order;
    fresh_gt = i.fresh_gt;
    seen = tt;
  }
  Step-IsSound (take {q} {p} {xs} {ys} {t} old_head ne e) i =
      let (x, n, live, sound) = IsSound-head q p t xs ys i ne in
      subst (λ node. IsSound (at (unlink q node.next) p Popper.taken xs (with_item node.item ys)))
        (ap (node_or old_head) (sym live ∙ e)) sound
  Step-IsSound pop_load i = record {
    held = i.held;
    chain = i.chain;
    order = i.order;
    fresh_gt = i.fresh_gt;
    seen = tt;
  }
  Step-IsSound pop_store i = record {
    held = i.held;
    chain = i.chain;
    order = i.order;
    fresh_gt = i.fresh_gt;
    seen = tt;
  }

  pub Reach-IsSound : {siz : ℕ} {s : Threads A} → Reach siz s → IsSound s
  unfolding init write
  Reach-IsSound start = record {
    held = [];
    chain = (refl, refl);
    order = refl;
    fresh_gt = omega arith;
    seen = tt;
  }
  Reach-IsSound (later r st) = Step-IsSound st (Reach-IsSound r)

  -- In every state that threads reach by pushes and pops whose accesses interleave, the values that
  -- were taken, and after them those in the chain from `head` to the last node, are the values that
  -- were pushed, in order.
  pub reached-in_order :
      (siz : ℕ) (s : Threads A)
      → Reach siz s
      → (held : List A) × Seg s.queue.nodes (last_of s.pusher s.queue.tail) s.queue.head held
        × (s.popped ++ held ≡ s.pushed)
  reached-in_order siz s r = let i = Reach-IsSound r in (i.held, i.chain, i.order)

  -- In every such state, a thread that has compared the head with the tail that it read, and found them
  -- different, can take the head: it is a live node with a value.
  pub reached-live :
      (siz : ℕ) (q : Queue A) (p : Pusher) (t : Ptr) (xs ys : List A)
      → Reach siz (at q p (Popper.looking t) xs ys)
      → q.head ≢ t
      → (x : A) × (n : Ptr) × Step
          (at q p (Popper.looking t) xs ys)
          (at (unlink q n) p Popper.taken xs (ys ++ x ∷ []))
  reached-live siz q p t xs ys r ne =
      let (x, n, live, _) = IsSound-head q p t xs ys (Reach-IsSound r) ne in
      (x, n, take (record { item = some x; next = n }) ne live)
