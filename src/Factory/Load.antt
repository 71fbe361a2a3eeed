-- ===== src/Factory/Load.antt =====
-- How a file becomes capsules: one chunk for each call, until the file is used up.
use udm.Base.{
  ℕ, suc, ◌+◌, ◌-◌, ◌≤◌, ◌<◌, ◌%◌, ◌^◌, ◌≡◌, refl, ap, subst, sym, ◌∙◌, some, Bool, true, false,
  List, [], ◌∷◌, ◌++◌, arith, leb, ltb, if◌then◌else◌, length, take, drop, replicate,
  replicate-append, length-replicate, length-take, length-drop, min, le→leb, lt→leb, le→ltb,
}
use udm.Wire.{zero_hdr, header_space, tx, in_mode}
use udm.World.{World, ok, DataSource}
use udm.World.Memory.{put, overwrite}
use udm.World.Laws.{overwrite-append, buffer_of}
use udm.Factory.{add32, input_by_mode, to_size_t, read_stream, load_chunk, input_from_source}

-- The sender's factory between two chunks of `n` bytes: the queue is empty, and `s` is the file.
abbrev pub at_chunk : World → DataSource → ℕ → World
at_chunk w s n = record w {
  tx_factory = record w.tx_factory {
    buffer = [];
    fin = false;
    cur_size = s.pos;
    chunk_size = n;
    source_data = some s;
  };
}

-- An open file of which `pos` bytes are read, and a chunk size for which sizes fit their fields.
pub record IsReading (s : DataSource) (n : ℕ) : Type 0 where
  pub for_input : s.fmode ≡ in_mode
  pub good : s.bad ≡ false
  pub whole : s.file_size ≡ length s.content
  pub small : s.file_size < 2 ^ 31
  pub read_part : s.pos ≤ s.file_size
  pub count_fits : s.gcount < 2 ^ 32
  pub chunk_gt : header_space < n
  pub chunk_fits : n < header_space + 2 ^ 16

-- The bytes of the next chunk.
abbrev pub next_bytes : DataSource → ℕ → List ℕ
next_bytes s n = take (n - header_space) (drop s.pos s.content)

pub length-next_bytes :
    (s : DataSource) (n : ℕ)
    → length (next_bytes s n) ≡ min (n - header_space) (length s.content - s.pos)
length-next_bytes s n =
    omega
      (arith, length-take (n - header_space) (drop s.pos s.content), length-drop s.pos s.content)

-- The chunk is shorter than there is room for.
abbrev pub is_short : DataSource → ℕ → Bool
is_short s n = ltb (length (next_bytes s n)) (n - header_space)

read_stream_lem :
    (s : DataSource) (n : ℕ)
    → IsReading s n
    → read_stream s (n - header_space) ≡ length (next_bytes s n)
unfolding read_stream
read_stream_lem s n v = rw v.good (omega (arith, length-next_bytes s n))

abbrev pub after_chunk : DataSource → ℕ → DataSource
after_chunk s n = record s {
  pos = s.pos + length (next_bytes s n);
  gcount = length (next_bytes s n);
}

-- The world with the next chunk in the queue.
abbrev pub chunk_loaded : World → DataSource → ℕ → World
chunk_loaded w s n =
    let k = length (next_bytes s n) in
    record w {
      mem = put w.mem w.fresh (
          buffer_of (k + header_space) (record zero_hdr { cap_size = k })
            (replicate header_space w.env.junk
              ++ (next_bytes s n ++ replicate (n - header_space - k) w.env.junk))
            0);
      fresh = suc w.fresh;
      tx_factory = record w.tx_factory {
        buffer = w.fresh ∷ [];
        fin = if is_short s n then true else false;
        cur_size = s.pos + k;
        chunk_size = if is_short s n then k + header_space else n;
        source_data = some (after_chunk s n);
      };
    }

load_chunk_lem :
    (w : World) (s : DataSource) (n : ℕ)
    → IsReading s n
    → load_chunk tx s (at_chunk w s n) ≡ ok tt (chunk_loaded w s n)
unfolding load_chunk
load_chunk_lem w s n v =
    let k = length (next_bytes s n) in
    let short : k ≤ n - header_space = omega (arith, length-next_bytes s n) in
    let j = w.env.junk in
    let block : replicate n j
        ≡ replicate header_space j ++ (replicate k j ++ replicate (n - header_space - k) j) =
      replicate-append header_space n j (omega arith)
      ∙ ap (◌++◌ (replicate header_space j)) (replicate-append k (n - header_space) j short) in
    let over =
      overwrite-append (replicate header_space j) (replicate k j) (next_bytes s n)
        (replicate (n - header_space - k) j) header_space refl (length-replicate k j) in
    let size_fits : k % 2 ^ 16 ≡ k = omega arith in
    let total_fits : add32 s.pos k ≡ s.pos + k = omega (arith, length-next_bytes s n) in
    rw (read_stream_lem s n v, load_chunk)
      (rw v.good (rw (block, over, overwrite) (rw (size_fits, total_fits))))

to_size_t-small : (i : ℕ) → i < 2 ^ 31 → to_size_t i ≡ i
to_size_t-small i h = ground arith

-- While the file holds more, the next chunk is loaded.
pub input_from_source-more :
    (w : World) (s : DataSource) (n : ℕ)
    → IsReading s n
    → s.pos < s.file_size
    → input_from_source tx (at_chunk w s n) ≡ ok tt (chunk_loaded w s n)
unfolding input_from_source
input_from_source-more w s n v more =
    let goes_on : leb s.file_size s.pos ≡ false = lt→leb s.file_size s.pos more in
    let room : ltb n header_space ≡ false = le→ltb n header_space (omega arith) in
    subst
      (λ m.
        input_by_mode m tx (at_chunk w s n).tx_factory s (at_chunk w s n)
        ≡ ok tt (chunk_loaded w s n))
      (sym v.for_input)
      (rw (to_size_t-small s.pos (omega arith), goes_on, room) (load_chunk_lem w s n v))

-- At the end of the file nothing is loaded, and `fin` is set.
pub input_from_source-end :
    (w : World) (s : DataSource) (n : ℕ)
    → IsReading s n
    → s.pos ≡ s.file_size
    → input_from_source tx (at_chunk w s n)
      ≡ ok tt (record (at_chunk w s n) {
        tx_factory = record (at_chunk w s n).tx_factory { fin = true };
      })
unfolding input_from_source
input_from_source-end w s n v over =
    let ended : leb s.file_size s.pos ≡ true = le→leb s.file_size s.pos (omega arith) in
    rw (v.for_input, input_from_source) (rw (to_size_t-small s.pos (omega arith), ended))
