-- ===== src/Queue/Seg.antt =====
-- The chain of nodes between two addresses, and what allocation and release do to it.
use udm.Base.{◌<◌, ◌≤◌, ◌≡◌, refl, none, some, List, [], ◌∷◌, ◌++◌, arith, ◌%◌, ◌^◌, length}
use udm.Queue.{Ptr, Store, Queue, write, dummy}

module _ {ℓ} {A : Type ℓ} where
  -- From `h` to the dummy at `t` the nodes hold the values `xs`, at growing addresses.
  abbrev pub Seg : Store A → Ptr → Ptr → List A → Type ℓ
  Seg s t h [] = (h ≡ t) × (s t ≡ some dummy)
  Seg s t h (x ∷ xs) =
      (n : Ptr) × (h < n) × (s h ≡ some (record { item = some x; next = n })) × Seg s t n xs

  -- The queue holds the values `xs`, the oldest first.
  pub record Holds (q : Queue A) (xs : List A) : Type ℓ where
    pub chain : Seg q.nodes q.tail q.head xs
    pub fresh_gt : q.tail < q.fresh
    pub counted : q.count ≡ length xs % 2 ^ 32

  pub Seg-le : (s : Store A) (t h : Ptr) (xs : List A) → Seg s t h xs → h ≤ t
  Seg-le s t h [] (e, d) = omega arith
  Seg-le s t h (x ∷ xs) (n, l, e, g) = omega (arith, Seg-le s t n xs g)

  -- Giving back a node before the chain leaves the chain.
  pub Seg-free :
      (s : Store A) (t h p : Ptr) (xs : List A) → p < h → Seg s t h xs → Seg (write s p none) t h xs
  unfolding write
  Seg-free s t h p [] l (e, d) = (e, ground arith)
  Seg-free s t h p (x ∷ xs) l (n, m, e, g) =
      (n, m, ground arith, Seg-free s t n p xs (omega arith) g)

  -- Filling the dummy and appending a new one makes the chain longer by one value.
  pub Seg-push :
      (s : Store A) (t h f : Ptr) (x : A) (xs : List A)
      → t < f
      → Seg s t h xs
      → Seg
          (write (write s f (some dummy)) t (some (record { item = some x; next = f })))
          f
          h
          (xs ++ x ∷ [])
  unfolding write
  Seg-push s t h f x [] l (e, d) = (f, omega arith, ground arith, (refl, ground arith))
  Seg-push s t h f x (y ∷ ys) l (n, m, e, g) =
      let le : n ≤ t = Seg-le s t n ys g in (n, m, ground arith, Seg-push s t n f x ys l g)
