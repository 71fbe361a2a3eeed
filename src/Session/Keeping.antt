-- ===== src/Session/Keeping.antt =====
-- What keeps the receive window `rxcurrentWindow` in order: the actions of the gateway and the store that
-- the receiver's rounds are made of.
use udm.Base.{
  ℕ, suc, ◌+◌, ◌≤◌, ◌≡◌, sym, subst, Option, none, some, Bool, true, false, List, [], ◌∷◌, arith,
  if◌then◌else◌,
}
use udm.Wire.{StateDirection, tx, rx, decode}
use udm.World.{
  World, M, Run, Capsule, MemBuff, ok, halt, Ref, Arrival, datagram, failed, pure, gets, modify,
  the, and_then, ◌>>=◌,
}
use udm.World.Memory.{alloc, free, load, store, load_cap, store_cap, copy_in, copy_out, overwrite}
use udm.Factory.{prepare_mem_buff, push, make_chunk_for_rx}
use udm.Gateway.{recvfrom, receive_into, strip_header, pull, receive}
use udm.Session.Processor.{insert_window, set_win_size}

-- The keys ascend, from `n` on.
abbrev pub IsAscending : ℕ → List (ℕ × Ref) → Type 0
IsAscending n [] = Unit
IsAscending n ((k, r) ∷ rest) = (n ≤ k) × IsAscending (suc k) rest

-- A capsule enters a window whose identifiers ascend from `n` on, its own no lower: they still do.
pub insert_window-IsAscending :
    (key : ℕ) (r : Ref) (n : ℕ) (m : List (ℕ × Ref))
    → n ≤ key
    → IsAscending n m
    → IsAscending n (insert_window key r m)
unfolding insert_window
insert_window-IsAscending key r n [] h v = (h, tt)
insert_window-IsAscending key r n ((k, s) ∷ rest) h v =
    ground (arith, insert_window-IsAscending key r (suc k) rest)

-- A run that returns, if it does, with an ascending window.
abbrev pub IsOrdered {ℓ} : {A : Type ℓ} → Run A → Type 0
IsOrdered (ok a w) = IsAscending 0 w.window
IsOrdered (halt h w) = Unit

-- An action that keeps the window ascending, from whatever world it starts in.
abbrev pub Keeps {ℓ} : {A : Type ℓ} → M A → Type 0
Keeps m = (w : World) → IsAscending 0 w.window → IsOrdered (m w)

module _ {ℓ κ} {A : Type ℓ} {B : Type κ} where
  IsOrdered-then :
      (r : Run A) (f : A → M B) → IsOrdered r → ((a : A) → Keeps (f a)) → IsOrdered (and_then r f)
  IsOrdered-then (ok a w) f v k = k a w v
  IsOrdered-then (halt h w) f v k = tt

  pub Keeps-then : (m : M A) (f : A → M B) → Keeps m → ((a : A) → Keeps (f a)) → Keeps (m >>= f)
  Keeps-then m f km kf w v = IsOrdered-then (m w) f (km w v) kf

module _ {ℓ} {A : Type ℓ} where
  pub Keeps-the : (o : Option A) → Keeps (the o)
  Keeps-the none w v = tt
  Keeps-the (some a) w v = v

  pub Keeps-if : (b : Bool) (m n : M A) → Keeps m → Keeps n → Keeps (if b then m else n)
  Keeps-if true m n km kn = km
  Keeps-if false m n km kn = kn

  pub IsOrdered-if :
      (b : Bool) (r s : Run A) → IsOrdered r → IsOrdered s → IsOrdered (if b then r else s)
  IsOrdered-if true r s v u = v
  IsOrdered-if false r s v u = u

  pub Keeps-pure : (a : A) → Keeps (pure a)
  Keeps-pure a w v = v

  pub Keeps-gets : (f : World → A) → Keeps (gets f)
  Keeps-gets f w v = v

-- What does not touch the window.
Keeps-modify : (f : World → World) → ((w : World) → (f w).window ≡ w.window) → Keeps (modify f)
Keeps-modify f same w v = subst (IsAscending 0) (sym (same w)) v

pub alloc-Keeps : (b : MemBuff) → Keeps (alloc b)
unfolding alloc
alloc-Keeps b w v = v

pub free-Keeps : (r : Ref) → Keeps (free r)
unfolding free
free-Keeps r w v = v

pub load-Keeps : (r : Ref) → Keeps (load r)
unfolding load
load-Keeps r w v = Keeps-the (w.mem r) w v

pub set_win_size-Keeps : (n : ℕ) → Keeps (set_win_size n)
set_win_size-Keeps n w v = v

pub ruleset quiet = (
  Keeps-then, Keeps-the, Keeps-if, Keeps-pure, Keeps-gets, alloc-Keeps, free-Keeps, load-Keeps,
  set_win_size-Keeps,
)

pub store-Keeps : (r : Ref) (b : MemBuff) → Keeps (store r b)
unfolding store
store-Keeps r b = Keeps-then (load r) _ (load-Keeps r) (λ _ w v. v)

pub load_cap-Keeps : (r : Ref) → Keeps (load_cap r)
unfolding load_cap
load_cap-Keeps r = Keeps-then (load r) _ (load-Keeps r) (λ b. Keeps-the b.cap)

store_cap-Keeps : (r : Ref) (c : Capsule) → Keeps (store_cap r c)
unfolding store_cap
store_cap-Keeps r c = Keeps-then (load r) _ (load-Keeps r) (λ b. store-Keeps r _)

copy_in-Keeps : (i : ℕ) (bs : List ℕ) (c : Capsule) → Keeps (copy_in i bs c)
unfolding copy_in
copy_in-Keeps i bs c =
    Keeps-then (the (overwrite c.block (c.off + i) bs)) _ (Keeps-the _)
      (λ b. Keeps-pure (record c { block = b }))

copy_out-Keeps : (i n : ℕ) (c : Capsule) → Keeps (copy_out i n c)
unfolding copy_out
copy_out-Keeps i n c = Keeps-the _

recvfrom-IsOrdered :
    (n : ℕ) (arrivals : List Arrival) (w : World)
    → IsAscending 0 w.window
    → IsOrdered (recvfrom n (record w { incoming = arrivals }))
unfolding recvfrom
recvfrom-IsOrdered n [] w v = tt
recvfrom-IsOrdered n (failed ∷ rest) w v = tt
recvfrom-IsOrdered n (datagram bytes from named ∷ rest) w v = v

recvfrom-Keeps : (n : ℕ) → Keeps (recvfrom n)
recvfrom-Keeps n w v = recvfrom-IsOrdered n w.incoming w v

receive_into-Keeps : (r : Ref) (bs : List ℕ) → Keeps (receive_into r bs)
unfolding receive_into
receive_into-Keeps r bs = Keeps-then _ _ (load-Keeps r) (λ b.
    Keeps-then _ _ (Keeps-the b.cap)
      (λ c. Keeps-then _ _ (copy_in-Keeps 0 bs c) (λ c'. store-Keeps r _)))

strip_header-Keeps : (r : Ref) → Keeps (strip_header r)
unfolding strip_header
strip_header-Keeps r = Keeps-then _ _ (load_cap-Keeps r) (λ c.
    Keeps-then _ _ (copy_out-Keeps 0 _ c)
      (λ bs. Keeps-then _ _ (Keeps-the (decode bs)) (λ h. store_cap-Keeps r _)))

make_chunk_for_rx-Keeps : (d : StateDirection) → Keeps (make_chunk_for_rx d)
unfolding make_chunk_for_rx prepare_mem_buff push alloc
make_chunk_for_rx-Keeps tx w v = v
make_chunk_for_rx-Keeps rx w v = v

pub pull-Keeps : Keeps pull
unfolding pull
pull-Keeps =
    search (quiet, make_chunk_for_rx-Keeps, recvfrom-Keeps, receive_into-Keeps, strip_header-Keeps)
      depth 12

pub receive-Keeps : (r : Ref) → Keeps (receive r)
unfolding receive
receive-Keeps r = Keeps-then _ _ (load-Keeps r) (λ b. Keeps-then _ _ (recvfrom-Keeps b.size) (λ d.
    Keeps-then _ _ (receive_into-Keeps r d.0)
      (λ _. Keeps-if d.1 _ _ (strip_header-Keeps r) (λ w v. tt))))
