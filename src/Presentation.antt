-- ===== src/Presentation.antt =====
-- presentation.h: `PresentationProcessor` and `Compositor`.
pub mod Written
mod Tests
use udm.Base.{ℕ, List, [], ◌∷◌, if◌then◌else◌, has_bits}
use udm.Wire.{StateCode, StateDirection, tx, payld, sizeof_capsule}
use udm.World.{M, Ref, pure, modify, skip, factory, set_factory, ◌>>=◌, ◌>>◌}
use udm.World.Memory.{load, load_cap, store}
use udm.Factory.{write2_source, fetch_chunk, make_chunk_for_rx, add32, leb_int}
use udm.Gateway.{copy_header}

-- `write2Souce`. `curPos` starts again at 0 when it reaches `allocSize`.
unfoldable pub write2_souce : StateDirection → Ref → M (Unit {0})
unfolding load
write2_souce d r = do
  b ← load r
  write2_source d r b.size
  modify (λ w.
      let f = factory d w in
      let p = add32 f.cur_pos b.size in
      set_factory d
        (record f {
          cur_pos = if leb_int f.alloc_size p then 0 else p;
          cur_size = add32 f.cur_size b.size;
        })
        w)

-- The loop of `process` over the window, by ascending key.
unfoldable pub write_window : StateDirection → List (ℕ × Ref) → M (Unit {0})
unfolding load_cap
write_window d [] = skip
write_window d ((key, r) ∷ rest) = do
  c ← load_cap r
  if has_bits c.header.cap_type payld then write2_souce d r else skip
  write_window d rest

-- `PresentationProcessor::process`.
unfoldable pub process : StateDirection → List (ℕ × Ref) → StateCode → M (Unit {0})
process d current_window StateCode.done = write_window d current_window
process d current_window _ = skip

-- `PresentationProcessor::setCapParams`: the compression is left out in the source.
unfoldable pub set_cap_params : Ref → M (Unit {0})
set_cap_params r = copy_header r

-- `constructChunk`.
unfoldable pub construct_chunk : M Ref
unfolding fetch_chunk
construct_chunk = fetch_chunk tx

-- `newBuffer`.
unfoldable pub new_buffer : StateDirection → M Ref
unfolding load store
new_buffer d = do
  r ← make_chunk_for_rx d
  b ← load r
  store r (record b { size = sizeof_capsule })
  pure r
