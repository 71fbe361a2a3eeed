-- ===== src/World/Laws.antt =====
-- What the actions on objects and bytes do where they succeed.
use mathlib.Core.Path.{fun_ext}
use udm.Base.{
  ℕ, ◌+◌, ◌≡◌, Option, some, true, List, ◌++◌, arith, leb, le→leb, length, drop, length-append,
  take-length-append, drop-length-append, append_assoc,
}
use udm.Wire.{CapsuleHdr}
use udm.World.{World, ok, MemBuff, Capsule, Ref}
use udm.World.Memory.{put, load, store, load_cap, store_cap, overwrite, slice}

-- An object with a capsule.
abbrev pub buffer_of : ℕ → CapsuleHdr → List ℕ → ℕ → Option MemBuff
buffer_of n h block off =
    some (record { size = n; cap = some (record { header = h; block = block; off = off }) })

pub put_self : (m : Ref → Option MemBuff) (r : Ref) (c : Option MemBuff) → put m r c r ≡ c
unfolding put
put_self m r c = ground arith

pub put_ne :
    (m : Ref → Option MemBuff) (r q : Ref) (c : Option MemBuff) → (q ≡ r → ⊥) → put m r c q ≡ m q
unfolding put
put_ne m r q c h = ground arith

pub put-put :
    (m : Ref → Option MemBuff) (r : Ref) (b c : Option MemBuff) → put (put m r b) r c ≡ put m r c
unfolding put
put-put m r b c = fun_ext λ q. ground arith

pub load-some : (r : Ref) (w : World) (b : MemBuff) → w.mem r ≡ some b → load r w ≡ ok b w
unfolding load
load-some r w b h = rw h

pub load_cap-some :
    (r : Ref) (w : World) (n : ℕ) (c : Capsule)
    → w.mem r ≡ some (record { size = n; cap = some c })
    → load_cap r w ≡ ok c w
unfolding load_cap
load_cap-some r w n c h = rw h

pub store-some :
    (r : Ref) (w : World) (b b' : MemBuff)
    → w.mem r ≡ some b
    → store r b' w ≡ ok tt (record w { mem = put w.mem r (some b') })
unfolding store load
store-some r w b b' h = rw h

pub store_cap-some :
    (r : Ref) (w : World) (n : ℕ) (c c' : Capsule)
    → w.mem r ≡ some (record { size = n; cap = some c })
    → store_cap r c' w
      ≡ ok tt (record w { mem = put w.mem r (some (record { size = n; cap = some c' })) })
unfolding store_cap
store_cap-some r w n c c' h = rw (h, store) (rw h)

-- Writing over the middle of a block.
pub overwrite-append :
    (pre old new post : List ℕ) (i : ℕ)
    → i ≡ length pre
    → length old ≡ length new
    → overwrite (pre ++ (old ++ post)) i new ≡ some (pre ++ (new ++ post))
unfolding overwrite
overwrite-append pre old new post i e f =
    let fits : leb (i + length new) (length (pre ++ (old ++ post))) ≡ true =
      le→leb _ _ (omega (arith, length-append pre (old ++ post), length-append old post)) in
    let behind : drop (i + length new) (pre ++ (old ++ post)) ≡ post =
      rw (← append_assoc pre old post) (
        drop-length-append (pre ++ old) post (i + length new)
          (omega (arith, length-append pre old))) in
    rw (fits, behind, take-length-append pre (old ++ post) i e)

-- Reading from the middle of a block.
pub slice-append :
    (pre mid post : List ℕ) (i n : ℕ)
    → i ≡ length pre
    → n ≡ length mid
    → slice (pre ++ (mid ++ post)) i n ≡ some mid
unfolding slice
slice-append pre mid post i n e f =
    let fits : leb (i + n) (length (pre ++ (mid ++ post))) ≡ true =
      le→leb _ _ (omega (arith, length-append pre (mid ++ post), length-append mid post)) in
    rw (fits, drop-length-append pre (mid ++ post) i e, take-length-append mid post n f)
