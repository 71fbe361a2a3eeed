-- ===== src/Queue/Fifo.antt =====
-- What a client of `threadsafe_queue` is promised: the values in the order in which they were pushed.
use udm.Base.{ℕ, ◌%◌, ◌^◌, Option, none, some, Bool, true, false, List, [], ◌∷◌, ◌++◌, length}

pub data Op {ℓ} (A : Type ℓ) : Type ℓ where
  push : A → Op A
  push_with_ref : A → Op A
  try_pop : Op A
  try_pop_into : A → Op A
  peek : Op A
  is_empty : Op A
  get_count : Op A

pub data Reply {ℓ} (A : Type ℓ) : Type ℓ where
  unit : Reply A
  item : Option A → Reply A
  into : Bool → A → Reply A
  test : Bool → Reply A
  number : ℕ → Reply A

module _ {ℓ} {A : Type ℓ} where
  unfoldable pub call : List A → Op A → Reply A × List A
  call xs (Op.push x) = (Reply.unit, xs ++ x ∷ [])
  call xs (Op.push_with_ref x) = (Reply.unit, xs ++ x ∷ [])
  call [] Op.try_pop = (Reply.item none, [])
  call (x ∷ xs) Op.try_pop = (Reply.item (some x), xs)
  call [] (Op.try_pop_into v) = (Reply.into false v, [])
  call (x ∷ xs) (Op.try_pop_into v) = (Reply.into true x, xs)
  call [] Op.peek = (Reply.test false, [])
  call (x ∷ xs) Op.peek = (Reply.test true, xs)
  call [] Op.is_empty = (Reply.test true, [])
  call (x ∷ xs) Op.is_empty = (Reply.test false, x ∷ xs)
  call xs Op.get_count = (Reply.number (length xs % 2 ^ 32), xs)

  unfoldable pub run : List A → List (Op A) → List (Reply A)
  unfolding call
  run xs [] = []
  run xs (op ∷ ops) = let (r, xs') = call xs op in r ∷ run xs' ops
