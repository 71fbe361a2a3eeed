-- ===== src/Session/Listening.antt =====
-- What the datagrams of a window leave as it was at a receiver, and how a window starts.
use udm.Base.{
  ℕ, suc, ◌≤◌, ◌<◌, ◌≡◌, refl, sym, subst, ◌∙◌, some, none, false, List, [], ◌∷◌, ◌++◌, arith,
}
use udm.Wire.{StateCode, header_space}
use udm.World.{World, Ref, Arrival}
use udm.Presentation.Written.{AllPayload}
use udm.Session.Processor.{win_siz}
use udm.Session.Received.{Sent, arrivals_of, IsReceiving, round_received, arrived-old, IsOld}
use udm.Session.Receiver.{IsBelow}
use udm.Session.ReceivedWindow.{received}
use udm.Session.Finished.{IsBetween}

-- All that the datagrams of a window touch.
pub received-rest :
    (cs : List Sent) (rest : List Arrival) (w : World)
    → let e = received cs rest w in
      e ≡ record w {
        mem = e.mem;
        fresh = e.fresh;
        rx_factory = record e.rx_factory {
          chunk_size = w.rx_factory.chunk_size;
          source_data = w.rx_factory.source_data;
        };
        window = e.window;
        session = record w.session { win_size = e.session.win_size };
        gateway = record w.gateway { peer_addr = e.gateway.peer_addr };
        incoming = e.incoming;
        hdrid = e.hdrid;
      }
received-rest [] rest w = refl
received-rest (c ∷ cs) rest w = received-rest cs rest (round_received w c (arrivals_of cs rest))

-- Objects up to `low` are left alone, and the receiving queue holds later ones.
pub record IsApart (w : World) (low : ℕ) : Type 0 where
  pub older : low < w.fresh
  pub queue : IsBetween (suc low) w.fresh w.rx_factory.buffer

IsBetween-append :
    (low high : ℕ) (rs : List Ref)
    → low ≤ suc high
    → IsBetween low high rs
    → IsBetween low (suc (suc high)) (rs ++ suc high ∷ [])
IsBetween-append low high [] le v = (omega arith, omega arith, tt)
IsBetween-append low high (r ∷ rs) le v =
    (v.0, omega (arith, v.1), IsBetween-append low high rs le v.2)

round_received-IsApart :
    (w : World) (c : Sent) (rest : List Arrival) (low : ℕ)
    → IsApart w low
    → IsApart (round_received w c rest) low
round_received-IsApart w c rest low v = record {
  older = (let o = v.older in omega arith);
  queue =
      IsBetween-append (suc low) w.fresh w.rx_factory.buffer (let o = v.older in omega arith)
        v.queue;
}

pub received-IsApart :
    (cs : List Sent) (rest : List Arrival) (w : World) (low : ℕ)
    → IsApart w low
    → IsApart (received cs rest w) low
received-IsApart [] rest w low v = v
received-IsApart (c ∷ cs) rest w low v =
    received-IsApart cs rest _ low (round_received-IsApart w c (arrivals_of cs rest) low v)

pub received-mem :
    (cs : List Sent) (rest : List Arrival) (w : World) (low : ℕ)
    → IsApart w low
    → (received cs rest w).mem low ≡ w.mem low
received-mem [] rest w low v = refl
received-mem (c ∷ cs) rest w low v =
    received-mem cs rest _ low (round_received-IsApart w c (arrivals_of cs rest) low v)
    ∙ arrived-old w c (arrivals_of cs rest) low v.older

-- A receiver at the start of a window: the window is empty, the file is not through, and the caller's
-- buffer is an older object without a capsule.
pub record IsListening (w : World) (current_buffer : ℕ) : Type 0 where
  pub at_closed : w.session.next ≡ StateCode.closed
  pub window_size : w.session.win_size ≡ win_siz
  pub idle : w.session.tasks ≡ []
  pub no_entries : w.window ≡ []
  pub more : w.rx_factory.fin ≡ false
  pub apart : IsApart w current_buffer
  pub size : ℕ
  pub no_capsule : w.mem current_buffer ≡ some (record { size = size; cap = none })
  pub room : header_space ≤ w.tx_factory.chunk_size

pub IsListening-IsReceiving :
    (w : World) (current_buffer : ℕ)
    → IsListening w current_buffer
    → IsReceiving w current_buffer 0 []
IsListening-IsReceiving w current_buffer v = record {
  below = subst (IsBelow 0) (sym v.no_entries) tt;
  older = subst (IsOld w.fresh) (sym v.no_entries) tt;
  held = subst (λ m. AllPayload w.mem m []) (sym v.no_entries) tt;
  more = v.more;
  size = v.size;
  no_capsule = v.no_capsule;
  old = v.apart.older;
}
