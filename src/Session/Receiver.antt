-- ===== src/Session/Receiver.antt =====
-- What the receiver does with one datagram of payload: `submitTask` with RX.
use udm.Base.{
  ℕ, suc, ◌+◌, ◌≤◌, ◌<◌, ◌≡◌, refl, ◌∙◌, some, none, Bool, true, false, List, [], ◌∷◌, ◌++◌, arith,
  inl, inr, ◌==◌, length, has_bits, bit_and, bit_and-zero, Bool-cases, if◌then◌else◌,
}
use udm.Wire.{CapsuleHdr, IsHdr, StateCode, encode, header_space, payld, fin_flag, ctrl}
use udm.World.{World, ok, Ref, Arrival, datagram, SockAddr}
use udm.World.Memory.{put}
use udm.World.Laws.{buffer_of, put_self, put_ne}
use udm.Gateway.Receive.{pulled, pull_lem}
use udm.Session.Processor.{insert_window, process}
use udm.Session.States.{last_ref, receive_state, receive_pulled, accept_payload, await_payload}

-- Every key of the window is below `key`.
abbrev pub IsBelow : ℕ → List (ℕ × Ref) → Type 0
IsBelow key [] = Unit
IsBelow key ((k, r) ∷ rest) = (k < key) × IsBelow key rest

insert-above :
    (key : ℕ) (r : Ref) (m : List (ℕ × Ref))
    → IsBelow key m
    → insert_window key r m ≡ m ++ (key, r) ∷ []
unfolding insert_window
insert-above key r [] v = refl
insert-above key r ((k, s) ∷ rest) v = ground (arith, insert-above key r rest v.1)

insert-again :
    (key : ℕ) (r : Ref) (m : List (ℕ × Ref))
    → IsBelow key m
    → insert_window key r (m ++ (key, r) ∷ []) ≡ m ++ (key, r) ∷ []
unfolding insert_window
insert-again key r [] v = ground arith
insert-again key r ((k, s) ∷ rest) v = ground (arith, insert-again key r rest v.1)

last_ref-append : (key : ℕ) (r : Ref) (m : List (ℕ × Ref)) → last_ref (m ++ (key, r) ∷ []) ≡ some r
last_ref-append key r [] = refl
last_ref-append key r (e ∷ []) = refl
last_ref-append key r (e ∷ f ∷ rest) = last_ref-append key r (f ∷ rest)

-- The buffer that `submitTask` makes and does not use.
abbrev pub with_buffer : World → World
with_buffer w = record w {
  mem = put w.mem w.fresh (some (record { size = 0; cap = none }));
  fresh = suc w.fresh;
}

-- The world after a datagram with the header `h` came in.
abbrev pub arrived : World → CapsuleHdr → List ℕ → SockAddr → List Arrival → World
arrived w h payload from rest =
    let w1 = pulled (with_buffer w) h payload from rest in
    record w1 {
      mem = put w1.mem w.fresh none;
      window = w.window ++ (h.capid, suc w.fresh) ∷ [];
      rx_factory = record w1.rx_factory {
        fin = if has_bits h.cap_flags fin_flag then true else w.rx_factory.fin;
      };
      session = record w.session {
        win_size = if has_bits h.cap_flags fin_flag then 0 else w.session.win_size;
      };
    }

-- The world when the capsule entered the window.
abbrev entered : World → CapsuleHdr → List ℕ → SockAddr → List Arrival → World
entered w h payload from rest = record (pulled w h payload from rest) {
  window = w.window ++ (h.capid, w.fresh) ∷ [];
}

receive_pulled_lem :
    (w : World) (h : CapsuleHdr) (payload : List ℕ) (from : SockAddr) (named : Bool)
    (rest : List Arrival)
    → w.incoming ≡ datagram (encode h ++ payload) from named ∷ rest
    → IsHdr h
    → header_space + length payload ≤ w.rx_factory.chunk_size
    → has_bits h.cap_type payld ≡ true
    → IsBelow h.capid w.window
    → receive_pulled w ≡ ok tt (entered w h payload from rest)
unfolding receive_pulled
receive_pulled_lem w h payload from named rest e v l typed below =
    rw (pull_lem w h payload from named rest e v l, receive_pulled)
      (rw (put_self w.mem w.fresh _, receive_pulled)
        (rw (typed, insert-above h.capid w.fresh w.window below) refl))

-- What `accept_payload` makes of the world: the flags of the capsule say whether the file is through.
abbrev accepted : World → CapsuleHdr → World
accepted w h = record w {
  rx_factory = record w.rx_factory {
    fin = if has_bits h.cap_flags fin_flag then true else w.rx_factory.fin;
  };
  session = record w.session {
    win_size = if has_bits h.cap_flags fin_flag then 0 else w.session.win_size;
  };
}

-- A capsule that `process` puts where it stands in the window.
accept_payload_lem :
    (w : World) (current_buffer r : Ref) (n j off : ℕ) (h : CapsuleHdr) (block : List ℕ)
    → w.mem r ≡ buffer_of n h block off
    → w.mem current_buffer ≡ some (record { size = j; cap = none })
    → insert_window h.capid r w.window ≡ w.window
    → has_bits h.cap_type payld ≡ true
    → w.rx_factory.fin ≡ false
    → accept_payload current_buffer r w ≡ ok tt (accepted w h)
unfolding accept_payload process
accept_payload_lem w current_buffer r n j off h block e empty again typed open_file =
    let no_ctrl : (bit_and h.cap_type ctrl == 0) ≡ true = rw (bit_and-zero h.cap_type) refl in
    elim (Bool-cases (has_bits h.cap_flags fin_flag)) [
      | inl last ↦
          rw (e, accept_payload)
            (rw (no_ctrl, typed, accept_payload)
              (rw (again, last, accept_payload)
                (rw (e, accept_payload)
                  (rw (last, accept_payload) (rw (empty, accept_payload) refl)))))
      | inr more ↦
          rw (e, accept_payload)
            (rw (no_ctrl, typed, accept_payload)
              (rw (again, more, accept_payload)
                (rw (open_file, accept_payload)
                  (rw (e, accept_payload) (rw (more, accept_payload) refl)))))
    ]

-- When the next datagram holds a payload of the given header, fits a chunk and has a higher identifier
-- than any capsule of the window, `fin` is not set and the caller's buffer is an older object without a
-- capsule, a round of the receiver returns, with the capsule at the end of the window. The flag FIN
-- sets `fin` and ends the window.
pub await_payload_lem :
    (w : World) (current_buffer : Ref) (j : ℕ) (h : CapsuleHdr) (payload : List ℕ) (from : SockAddr)
    (named : Bool) (rest : List Arrival)
    → w.incoming ≡ datagram (encode h ++ payload) from named ∷ rest
    → IsHdr h
    → header_space + length payload ≤ w.rx_factory.chunk_size
    → has_bits h.cap_type payld ≡ true
    → IsBelow h.capid w.window
    → w.rx_factory.fin ≡ false
    → w.mem current_buffer ≡ some (record { size = j; cap = none })
    → current_buffer < w.fresh
    → await_payload StateCode.closed current_buffer w ≡ ok tt (arrived w h payload from rest)
unfolding await_payload receive_state
await_payload_lem w current_buffer j h payload from named rest e v l typed below open_file empty
      old =
    let w1 = entered (with_buffer w) h payload from rest in
    let got = receive_pulled_lem (with_buffer w) h payload from named rest e v l typed below in
    let there : w1.mem current_buffer ≡ some (record { size = j; cap = none }) =
      put_ne (with_buffer w).mem (suc w.fresh) current_buffer _ (λ q. omega (arith, q))
      ∙ put_ne w.mem w.fresh current_buffer _ (λ q. omega (arith, q))
      ∙ empty in
    let accept =
      accept_payload_lem w1 current_buffer (suc w.fresh) _ j _ h _
        (put_self (with_buffer w).mem (suc w.fresh) _) there
        (insert-again h.capid (suc w.fresh) w.window below) typed open_file in
    rw (got, await_payload)
      (rw (last_ref-append h.capid (suc w.fresh) w.window, await_payload)
        (rw (accept, await_payload) refl))
