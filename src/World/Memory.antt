-- ===== src/World/Memory.antt =====
-- Objects behind pointers, and bytes in blocks. A pointer that is dead or null, and an index past the
-- end of a block, is a fault.
use udm.Base.{
  ℕ, suc, ◌+◌, Option, none, some, List, ◌++◌, ◌==◌, leb, if◌then◌else◌, length, take, drop,
  replicate,
}
use udm.World.{World, M, MemBuff, Capsule, Ref, pure, the, modify, ◌>>=◌}

-- The store with one address changed.
unfoldable pub put : (Ref → Option MemBuff) → Ref → Option MemBuff → Ref → Option MemBuff
put m r c q = if q == r then c else m q

-- `new memBuff`, with the value given.
unfoldable pub alloc : MemBuff → M Ref
alloc b w = pure w.fresh (record w { mem = put w.mem w.fresh (some b); fresh = suc w.fresh })

-- The last owner lets go of the object.
unfoldable pub free : Ref → M (Unit {0})
free r w = modify (λ w. record w { mem = put w.mem r none }) w

unfoldable pub load : Ref → M MemBuff
load r w = the (w.mem r) w

unfoldable pub store : Ref → MemBuff → M (Unit {0})
store r b = do _ ← load r; modify (λ w. record w { mem = put w.mem r (some b) })

-- `r->data->…`
unfoldable pub load_cap : Ref → M Capsule
unfolding load
load_cap r = do b ← load r; the b.cap

unfoldable pub store_cap : Ref → Capsule → M (Unit {0})
unfolding load store
store_cap r c = do b ← load r; store r (record b { cap = some c })

-- `malloc`: the bytes are whatever the memory held.
abbrev pub malloc : ℕ → World → List ℕ
malloc n w = replicate n w.env.junk

-- The bytes at `i` replaced by `bs`; `none` where they do not all lie in the block.
unfoldable pub overwrite : List ℕ → ℕ → List ℕ → Option (List ℕ)
overwrite block i bs =
    if leb (i + length bs) (length block)
    then some (take i block ++ (bs ++ drop (i + length bs) block))
    else none

-- The `n` bytes from `i` on; `none` where they do not all lie in the block.
unfoldable pub slice : List ℕ → ℕ → ℕ → Option (List ℕ)
slice block i n = if leb (i + n) (length block) then some (take n (drop i block)) else none

-- `memcpy` into a capsule's body, and out of it.
unfoldable pub copy_in : ℕ → List ℕ → Capsule → M Capsule
unfolding overwrite
copy_in i bs c = do b ← the (overwrite c.block (c.off + i) bs); pure (record c { block = b })

unfoldable pub copy_out : ℕ → ℕ → Capsule → M (List ℕ)
unfolding slice
copy_out i n c = the (slice c.block (c.off + i) n)
