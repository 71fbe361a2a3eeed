-- ===== src/Factory.antt =====
-- datafactory.h: `DataSource` and `DataFactory`, which turns a file into capsules and capsules into a
-- file. A method of `DataFactory` takes the direction whose factory it is called on. An `int` is its
-- bit pattern of 32 bits, which wraps as the two's complement of the machine does; the conversion
-- to `size_t` extends the sign.
pub mod Load
use udm.Base.{
  ℕ, suc, ◌+◌, ◌-◌, ◌*◌, ◌%◌, ◌^◌, ◌≡◌, refl, Option, none, some, Bool, true, false, List, [], ◌∷◌,
  ◌++◌, ◌==◌, leb, ltb, if◌then◌else◌, length, take, drop, replicate, min,
}
use udm.Wire.{CapsuleHdr, zero_hdr, header_space, StateDirection, SourceMode, in_mode, out_mode}
use udm.World.{
  World, M, MemBuff, Capsule, Ref, DataSource, DataFactory, Halt, exited, fault, stop, pure, the,
  gets, modify, skip, factory, set_factory, ◌>>=◌, ◌>>◌,
}
use udm.World.Memory.{alloc, free, load, store, malloc, overwrite, copy_in, copy_out}

abbrev pub add32 : ℕ → ℕ → ℕ
add32 a b = (a + b) % 2 ^ 32

abbrev pub sub32 : ℕ → ℕ → ℕ
sub32 a b = (a + 2 ^ 32 - b) % 2 ^ 32

-- `(size_t)i` of an `int`.
abbrev pub to_size_t : ℕ → ℕ
to_size_t i = if ltb i (2 ^ 31) then i else i + (2 ^ 64 - 2 ^ 32)

-- `a <= b` of two `int`s.
abbrev pub leb_int : ℕ → ℕ → Bool
leb_int a b = leb (add32 a (2 ^ 31)) (add32 b (2 ^ 31))

-- `DataFactory(siz)`.
unfoldable pub init : ℕ → DataFactory
init siz = record {
  buffer = [];
  fin = false;
  alloc_size = 0;
  cur_size = 0;
  cur_pos = 0;
  cur_write_pos = 0;
  chunk_size = siz;
  source_data = none;
}

-- `buffer.push`, and `pushWithRef` on a new object: the object gets an address.
unfoldable pub push : StateDirection → MemBuff → M Ref
unfolding alloc
push d b = do
  r ← alloc b
  f ← gets (factory d)
  _ ← modify (set_factory d (record f { buffer = f.buffer ++ r ∷ [] }))
  pure r

abbrev pop_list : List Ref → Option Ref
pop_list [] = none
pop_list (r ∷ rs) = some r

abbrev rest_list : List Ref → List Ref
rest_list [] = []
rest_list (r ∷ rs) = rs

-- `buffer.try_pop()`: the caller owns what it gets.
unfoldable pub try_pop : StateDirection → M (Option Ref)
try_pop d = do
  f ← gets (factory d)
  modify (set_factory d (record f { buffer = rest_list f.buffer }))
  pure (pop_list f.buffer)

abbrev pub drop_owned : Option Ref → M (Unit {0})
drop_owned none = skip
drop_owned (some r) = free r

-- `fetchChunk`.
unfoldable pub fetch_chunk : StateDirection → M Ref
unfolding try_pop
fetch_chunk d = do r ← try_pop d; elim r [ none ↦ stop (exited 1) | some chunk ↦ pure chunk ]

unfoldable pub get_amount_read : ℕ → ℕ → ℕ
get_amount_read amt_before amt_after = sub32 amt_after amt_before

-- What `read` gets, and the stream after it.
abbrev pub read_bytes : DataSource → ℕ → List ℕ
read_bytes s n = if s.bad then [] else take n (drop s.pos s.content)

abbrev pub after_read : DataSource → ℕ → DataSource
after_read s n = record s {
  pos = s.pos + length (read_bytes s n);
  gcount = length (read_bytes s n);
}

-- `readStream`: the amount that it returns. The bytes are `read_bytes`, the stream `after_read`.
unfoldable pub read_stream : DataSource → ℕ → ℕ
unfolding get_amount_read
read_stream s size2_read =
    let gc_before = s.gcount in
    let gc_after = add32 (after_read s size2_read).gcount gc_before in
    get_amount_read gc_before gc_after

-- `tellp`, cut to an `int`: -1 on a failed stream.
abbrev pub tellp : DataSource → ℕ
tellp s = if s.bad then 2 ^ 32 - 1 else s.pos % 2 ^ 32

-- `write` and `flush`: the bytes go behind what the file holds, if the device takes them.
unfoldable pub write_bytes : DataSource → List ℕ → DataSource
write_bytes s bs =
    if s.bad
    then s
    else if leb (length bs) s.room
    then record s { content = s.content ++ bs; pos = s.pos + length bs; room = s.room - length bs }
    else record s { bad = true }

-- `writeStream`: the amount that it returns, and the stream after it.
unfoldable pub write_stream : DataSource → List ℕ → ℕ × DataSource
unfolding write_bytes get_amount_read
write_stream s bs =
    let gc_before = tellp s in
    let s' = write_bytes s bs in
    let gc_after = if s'.bad then (s'.file_size + 2 ^ 64 - 1) % 2 ^ 32 else tellp s' in
    (get_amount_read gc_before gc_after, s')

-- `prepareMemBuff`, on a capsule that was just made: its identifier counts over both factories.
unfoldable pub prepare_mem_buff : StateDirection → MemBuff → Capsule → M MemBuff
prepare_mem_buff d holder c = do
  w ← gets (λ w. w)
  let buf = malloc (factory d w).chunk_size w
  let hdr = record c.header { capid = w.hdrid % 2 ^ 16 }
  modify (λ w. record w { hdrid = add32 w.hdrid 1 })
  pure (record holder { cap = some (record { header = hdr; block = buf; off = 0 }) })

-- `makeChunkforRx`. The `size` of the new object is not set: the caller sets it.
unfoldable pub make_chunk_for_rx : StateDirection → M Ref
unfolding prepare_mem_buff push
make_chunk_for_rx d = do
  b ←
      prepare_mem_buff d (record { size = 0; cap = none })
        (record { header = zero_hdr; block = []; off = 0 })
  push d b

-- The file is at its end: `fin` is set and nothing is loaded.
abbrev pub set_fin : StateDirection → M (Unit {0})
set_fin d w = modify (λ w. set_factory d (record (factory d w) { fin = true }) w) w

-- A capsule with the next bytes of the file behind the room for its header. A short read is the last:
-- it sets `fin` and shortens the chunks.
unfoldable pub load_chunk : StateDirection → DataSource → M (Unit {0})
unfolding read_stream copy_in push
load_chunk d s = do
  w ← gets (λ w. w)
  let f = factory d w
  let body_len = f.chunk_size
  let want = body_len - header_space
  let read_size = read_stream s want
  c ← copy_in header_space (read_bytes s want) (record {
    header = record zero_hdr { cap_size = read_size % 2 ^ 16 };
    block = malloc body_len w;
    off = 0;
  })
  let short = ltb read_size want
  modify (
      set_factory d (record f {
        source_data = some (after_read s want);
        chunk_size = if short then read_size + header_space else f.chunk_size;
        fin = if short then true else f.fin;
      }))
  _ ← push d (record { size = read_size + header_space; cap = some c })
  modify (λ w.
      set_factory d (record (factory d w) { cur_size = add32 (factory d w).cur_size read_size }) w)

-- The body of `_inputFromSource`, by the mode of the file. A chunk with no room for a header would be
-- read with a negative length.
unfoldable pub input_by_mode : SourceMode → StateDirection → DataFactory → DataSource → M (Unit {0})
unfolding load_chunk
input_by_mode in_mode d f s =
    if leb s.file_size (to_size_t f.cur_size)
    then set_fin d
    else if ltb f.chunk_size header_space
    then stop fault
    else load_chunk d s
input_by_mode out_mode d f s = skip

-- `_inputFromSource`.
unfoldable pub input_from_source : StateDirection → M (Unit {0})
unfolding input_by_mode
input_from_source d = do f ← gets (factory d); s ← the f.source_data; input_by_mode s.fmode d f s

-- `initDataSource`, which nothing calls
unfoldable pub init_data_source : StateDirection → M (Unit {0})
init_data_source d = input_from_source d

-- `genDummyData`, which nothing calls: `none` past the end of the buffer
unfoldable pub gen_dummy_data : List ℕ → ℕ → Option (List ℕ)
gen_dummy_data buf size = overwrite buf 0 (replicate size b'A')

-- `updateDataSource`
unfoldable pub update_data_source : StateDirection → M (Unit {0})
unfolding input_from_source
update_data_source d = input_from_source d

-- The body of `write2Source`, by the mode of the file: what stands behind the header goes to the file.
-- A `memBuff` of fewer bytes than a header would be written with a negative length.
unfoldable pub write_by_mode : SourceMode → StateDirection → DataSource → Ref → ℕ → M (Unit {0})
unfolding write_stream load copy_out
write_by_mode in_mode d s r amt2_write = skip
write_by_mode out_mode d s r amt2_write = if ltb amt2_write header_space then stop fault else do
  b ← load r
  c ← the b.cap
  bs ← copy_out 0 (amt2_write - header_space) c
  f ← gets (factory d)
  let (amt_written, s') = write_stream s bs
  modify (
      set_factory d (record f {
        source_data = some s';
        cur_write_pos = add32 f.cur_write_pos (amt_written + header_space);
      }))

-- `write2Source`.
unfoldable pub write2_source : StateDirection → Ref → ℕ → M (Unit {0})
unfolding write_by_mode
write2_source d r amt2_write = do
  f ← gets (factory d)
  s ← the f.source_data
  write_by_mode s.fmode d s r amt2_write
