-- ===== src/Presentation/Written.antt =====
-- What `PresentationProcessor::process` makes of the received window: the file that is written.
use udm.Base.{
  ℕ, ◌+◌, ◌-◌, ◌≤◌, ◌≡◌, refl, sym, subst, ap, some, Option, true, false, List, [], ◌∷◌, ◌++◌,
  arith, ltb, le→leb, le→ltb, length, length-append, append_assoc, append-nil, has_bits,
  if◌then◌else◌,
}
use udm.Wire.{CapsuleHdr, rx, out_mode, header_space, payld}
use udm.World.{World, Run, ok, MemBuff, Ref, DataSource}
use udm.World.Memory.{slice, copy_out}
use udm.World.Laws.{buffer_of, slice-append}
use udm.Factory.{add32, leb_int, write_stream, write_by_mode, write2_source}
use udm.Presentation.{write2_souce, write_window}

-- The object holds a capsule of payload: the bytes stand where its body begins.
pub record IsPayload (m : Ref → Option MemBuff) (r : Ref) (payload : List ℕ) : Type 0 where
  pub header : CapsuleHdr
  pub pre : List ℕ
  pub post : List ℕ
  pub holds :
      m r ≡ buffer_of (header_space + length payload) header (pre ++ (payload ++ post)) (length pre)
  pub typed : has_bits header.cap_type payld ≡ true

-- The entries of the window hold the payloads, one each.
abbrev pub AllPayload : (Ref → Option MemBuff) → List (ℕ × Ref) → List (List ℕ) → Type 0
AllPayload m [] [] = Unit
AllPayload m [] (p ∷ ps) = ⊥
AllPayload m (e ∷ rest) [] = ⊥
AllPayload m (e ∷ rest) (p ∷ ps) = IsPayload m e.1 p × AllPayload m rest ps

-- The payloads one after the other.
abbrev pub window_bytes : List (List ℕ) → List ℕ
window_bytes [] = []
window_bytes (p ∷ ps) = p ++ window_bytes ps

-- The file with more at its end.
abbrev pub appended : DataSource → List ℕ → DataSource
appended s bs = record s {
  content = s.content ++ bs;
  pos = s.pos + length bs;
  room = s.room - length bs;
}

-- A file that is open for output, on a device that takes `n` more bytes.
pub record IsWriting (s : DataSource) (n : ℕ) : Type 0 where
  pub for_output : s.fmode ≡ out_mode
  pub good : s.bad ≡ false
  pub takes : n ≤ s.room

-- The world in which `s` is the file of the receiving factory.
abbrev pub with_file : World → DataSource → World
with_file w s = record w { rx_factory = record w.rx_factory { source_data = some s } }

-- The world after a payload was written, but for the file.
abbrev written : World → DataSource → List ℕ → World
written w s payload = record w {
  rx_factory = record w.rx_factory {
    cur_write_pos = add32 w.rx_factory.cur_write_pos ((write_stream s payload).0 + header_space);
  };
}

write2_source_lem :
    (w : World) (s : DataSource) (r : Ref) (payload : List ℕ)
    → IsWriting s (length payload)
    → IsPayload w.mem r payload
    → write2_source rx r (header_space + length payload) (with_file w s)
      ≡ ok tt (with_file (written w s payload) (appended s payload))
unfolding write2_source
write2_source_lem w s r payload v p =
    let size : header_space + length payload - header_space ≡ length payload = omega arith in
    let big : ltb (header_space + length payload) header_space ≡ false = le→ltb _ _ (omega arith) in
    let read : slice (p.pre ++ (payload ++ p.post)) (length p.pre + 0) (length payload)
        ≡ some payload =
      slice-append p.pre payload p.post (length p.pre + 0) (length payload) (omega arith) refl in
    subst
      (λ m.
        write_by_mode m rx s r (header_space + length payload) (with_file w s)
        ≡ ok tt (with_file (written w s payload) (appended s payload)))
      (sym v.for_output)
      (rw (big, p.holds, write_by_mode)
        (rw (size, read, copy_out) (rw (v.good, le→leb _ _ v.takes) refl)))

-- The counters after the object was written.
abbrev counted : World → ℕ → World
counted w n = record w {
  rx_factory = record w.rx_factory {
    cur_pos =
        if leb_int w.rx_factory.alloc_size (add32 w.rx_factory.cur_pos n)
        then 0
        else add32 w.rx_factory.cur_pos n;
    cur_size = add32 w.rx_factory.cur_size n;
  };
}

write2_souce_lem :
    (w : World) (s : DataSource) (r : Ref) (payload : List ℕ)
    → IsWriting s (length payload)
    → IsPayload w.mem r payload
    → write2_souce rx r (with_file w s)
      ≡ ok tt (
          with_file
            (counted (written w s payload) (header_space + length payload))
            (appended s payload))
unfolding write2_souce
write2_souce_lem w s r payload v p =
    rw (p.holds, write2_souce) (rw (write2_source_lem w s r payload v p, write2_souce) refl)

-- A run that returns with `s` as the file, and changes nothing but the receiving factory, whose queue,
-- `fin` and chunk size stay.
pub record IsWritten (w : World) (result : Run (Unit {0})) (s : DataSource) : Type 0 where
  pub end : World
  pub returns : result ≡ ok tt (with_file end s)
  pub elsewhere : with_file end s ≡ record w { rx_factory = (with_file end s).rx_factory }
  pub queue : end.rx_factory.buffer ≡ w.rx_factory.buffer
  pub same_fin : end.rx_factory.fin ≡ w.rx_factory.fin
  pub same_chunk_size : end.rx_factory.chunk_size ≡ w.rx_factory.chunk_size

appended-nil : (s : DataSource) → appended s [] ≡ s
appended-nil s =
    let same_pos : s.pos + 0 ≡ s.pos = omega arith in
    let same_room : s.room - 0 ≡ s.room = omega arith in
    rw (append-nil s.content, same_pos, same_room) refl

pub appended-appended :
    (s : DataSource) (a b : List ℕ) → appended (appended s a) b ≡ appended s (a ++ b)
appended-appended s a b =
    let l = length-append a b in
    let pos : s.pos + length a + length b ≡ s.pos + length (a ++ b) = omega arith in
    let room : s.room - length a - length b ≡ s.room - length (a ++ b) = omega arith in
    rw (append_assoc s.content a b, pos, room) refl

-- When the entries of the window hold the payloads `ps`, entry by entry, the file of the receiving
-- factory is open for output and the device takes as many bytes as there are, the loop over the window
-- returns, has put the payloads at the end of the file in the order of the entries, and has changed nothing outside
-- the receiving factory, nor its queue, `fin` or chunk size.
pub write_window_lem :
    (w : World) (s : DataSource) (entries : List (ℕ × Ref)) (ps : List (List ℕ))
    → IsWriting s (length (window_bytes ps))
    → AllPayload w.mem entries ps
    → IsWritten w (write_window rx entries (with_file w s)) (appended s (window_bytes ps))
unfolding write_window
write_window_lem w s [] [] v all = record {
  end = w;
  returns = ap (λ f. ok tt (with_file w f)) (sym (appended-nil s));
  elsewhere = refl;
  queue = refl;
  same_fin = refl;
  same_chunk_size = refl;
}
write_window_lem w s [] (p ∷ ps) v all = absurd all
write_window_lem w s (e ∷ rest) [] v all = absurd all
write_window_lem w s ((k, r) ∷ rest) (p ∷ ps) v all =
    let l = length-append p (window_bytes ps) in
    let takes = v.takes in
    let held = all.0 in
    let first =
      write2_souce_lem w s r p
        (record { for_output = v.for_output; good = v.good; takes = omega arith }) held in
    let w' = counted (written w s p) (header_space + length p) in
    let ih =
      write_window_lem w' (appended s p) rest ps
        (record { for_output = v.for_output; good = v.good; takes = omega arith }) all.1 in
    subst (IsWritten w _) (appended-appended s p (window_bytes ps)) (record {
      end = ih.end;
      returns =
          rw (held.holds, write_window)
            (rw (held.typed, write_window) (rw (first, write_window) ih.returns));
      elsewhere = ih.elsewhere;
      queue = ih.queue;
      same_fin = ih.same_fin;
      same_chunk_size = ih.same_chunk_size;
    })
