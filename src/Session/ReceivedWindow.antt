-- ===== src/Session/ReceivedWindow.antt =====
-- What `closedState` does for a receiver: a window comes in.
use udm.Base.{
  ℕ, zero, suc, ◌-◌, ◌≤◌, ◌≡◌, refl, ap, sym, subst, ◌∙◌, Bool, false, List, [], ◌∷◌, ◌++◌, arith,
  inl, inr, length, has_bits, Bool-cases, append_assoc, append-nil,
}
use udm.Wire.{StateCode, rx, fin_flag}
use udm.World.{World, Run, ok, Arrival}
use udm.Presentation.Written.{AllPayload}
use udm.Session.States.{window_loop, closed_state}
use udm.Session.Rounds.{window_loop-stop}
use udm.Session.Closed.{to_done, closed_state-loop}
use udm.Session.Received.{
  Sent, arrivals_of, payloads_of, IsSeries, IsReceiving, round_received, arrived-held,
  round_received-IsReceiving, window_loop-receives,
}

-- A run that returns when the window is through: the window holds the payloads `ps`, `fin` says whether
-- the file is through, `rest` is still to come, the file is as it was, and `code` is the next state.
pub record IsWindowReceived (w : World) (result : Run (Unit {0})) (ps : List (List ℕ))
    (rest : List Arrival) (last : Bool) (code : StateCode) : Type 0 where
  pub end : World
  pub returns : result ≡ ok tt end
  pub held : AllPayload end.mem end.window ps
  pub ends_file : end.rx_factory.fin ≡ last
  pub closed : end.session.win_size ≡ 0
  pub left : end.incoming ≡ rest
  pub file : end.rx_factory.source_data ≡ w.rx_factory.source_data
  pub tasks : end.session.tasks ≡ w.session.tasks
  pub next : end.session.next ≡ code

-- The flag FIN of a capsule ends the window, and so does the size of the window.
win_size-last :
    (w : World) (c : Sent) (rest : List Arrival) (last : Bool)
    → has_bits c.header.cap_flags fin_flag ≡ last
    → (last ≡ false → w.session.win_size ≤ 1)
    → (round_received w c rest).session.win_size ≡ 0
win_size-last w c rest last e narrow = elim (Bool-cases (has_bits c.header.cap_flags fin_flag)) [
  | inl fin ↦ rw fin (omega arith)
  | inr more ↦ rw more (let n = narrow (sym e ∙ more) in omega arith)
]

fin-last :
    (w : World) (c : Sent) (rest : List Arrival) (last : Bool)
    → has_bits c.header.cap_flags fin_flag ≡ last
    → w.rx_factory.fin ≡ false
    → (round_received w c rest).rx_factory.fin ≡ last
fin-last w c rest last e open_file = elim (Bool-cases (has_bits c.header.cap_flags fin_flag)) [
  | inl fin ↦ rw fin (sym fin ∙ e)
  | inr more ↦ rw more (open_file ∙ sym more ∙ e)
]

-- The world after the datagrams of a window.
abbrev pub received : List Sent → List Arrival → World → World
received [] rest w = w
received (c ∷ cs) rest w = received cs rest (round_received w c (arrivals_of cs rest))

window_loop-received :
    (cs : List Sent) (fuel : ℕ) (w : World) (current_buffer k : ℕ) (ps : List (List ℕ))
    (rest : List Arrival) (last : Bool)
    → IsReceiving w current_buffer k ps
    → IsSeries w.rx_factory.chunk_size last k cs
    → w.incoming ≡ arrivals_of cs rest
    → length cs ≤ w.session.win_size
    → (last ≡ false → w.session.win_size ≤ length cs)
    → w.session.win_size ≤ fuel
    → (v : IsWindowReceived w
        (window_loop fuel StateCode.closed rx current_buffer w)
        (ps ++ payloads_of cs)
        rest
        last
        w.session.next)
      × (v.end ≡ received cs rest w)
window_loop-received [] fuel w current_buffer k ps rest last g v e fits full enough = (
  record {
    end = w;
    returns = window_loop-stop fuel rx current_buffer w (let n = full v in omega arith);
    held = subst (AllPayload w.mem w.window) (sym (append-nil ps)) g.held;
    ends_file = g.more ∙ sym v;
    closed = (let n = full v in omega arith);
    left = e;
    file = refl;
    tasks = refl;
    next = refl;
  },
  refl,
)
window_loop-received (c ∷ []) zero w current_buffer k ps rest last g v e fits full enough =
    absurd (omega arith)
window_loop-received (c ∷ []) (suc fuel) w current_buffer k ps rest last g v e fits full enough =
    let over = win_size-last w c rest last v.1.1 full in
    (
      record {
        end = round_received w c rest;
        returns =
            window_loop-receives fuel w current_buffer k ps c rest g v.0 v.1.0 e (omega arith)
            ∙ window_loop-stop fuel rx current_buffer (round_received w c rest) over;
        held = arrived-held w c rest ps v.0 g.older g.held;
        ends_file = fin-last w c rest last v.1.1 g.more;
        closed = over;
        left = refl;
        file = refl;
        tasks = refl;
        next = refl;
      },
      refl,
    )
window_loop-received (c ∷ d ∷ cs) zero w current_buffer k ps rest last g v e fits full enough =
    absurd (omega arith)
window_loop-received (c ∷ d ∷ cs) (suc fuel) w current_buffer k ps rest last g v e fits full
      enough =
    let w' = round_received w c (arrivals_of (d ∷ cs) rest) in
    let no_fin = v.1.1.0 in
    let win : w'.session.win_size ≡ w.session.win_size - 1 = rw no_fin refl in
    let g' =
      round_received-IsReceiving w current_buffer k ps c (arrivals_of (d ∷ cs) rest) g v.0 v.1.0
        no_fin in
    let (ih, at_end) =
      window_loop-received (d ∷ cs) fuel w' current_buffer (suc c.header.capid)
        (ps ++ c.payload ∷ []) rest last g' v.1.1.1 refl (omega arith)
        (λ f. let n = full f in omega arith) (omega arith) in
    (
      record {
        end = ih.end;
        returns =
            window_loop-receives fuel w current_buffer k ps c (arrivals_of (d ∷ cs) rest) g v.0
              v.1.0 e (omega arith)
            ∙ ih.returns;
        held = subst (AllPayload ih.end.mem ih.end.window) (append_assoc ps _ _) ih.held;
        ends_file = ih.ends_file;
        closed = ih.closed;
        left = ih.left;
        file = ih.file;
        tasks = ih.tasks;
        next = ih.next;
      },
      at_end,
    )

pub closed_state-arrived :
    (cs : List Sent) (w : World) (current_buffer k : ℕ) (ps : List (List ℕ)) (rest : List Arrival)
    (last : Bool)
    → IsReceiving w current_buffer k ps
    → IsSeries w.rx_factory.chunk_size last k cs
    → w.incoming ≡ arrivals_of cs rest
    → length cs ≤ w.session.win_size
    → (last ≡ false → w.session.win_size ≤ length cs)
    → w.session.tasks ≡ []
    → (v : IsWindowReceived w
        (closed_state StateCode.closed rx current_buffer w)
        (ps ++ payloads_of cs)
        rest
        last
        StateCode.done)
      × (v.end ≡ to_done (received cs rest w))
closed_state-arrived cs w current_buffer k ps rest last g v e fits full idle =
    let (loop, at_end) =
      window_loop-received cs w.session.win_size w current_buffer k ps rest last g v e fits full
        (omega arith) in
    (
      record {
        end = to_done loop.end;
        returns = closed_state-loop rx current_buffer w loop.end loop.returns (loop.tasks ∙ idle);
        held = loop.held;
        ends_file = loop.ends_file;
        closed = loop.closed;
        left = loop.left;
        file = loop.file;
        tasks = loop.tasks;
        next = refl;
      },
      ap to_done at_end,
    )

-- In the middle of a window whose capsules hold the payloads `ps`, let the datagrams `cs` come in, of
-- payload that fits, with identifiers that rise above those of the window, of which the last carries FIN
-- if `last` says so, and no other. If they fill the window, or stay within it and end with FIN, and the
-- work queue is empty, then `closedState` returns with the payloads of the window and of `cs`, in
-- order, in the window, with `fin` set if and only if `last`, the rest of the datagrams still to come,
-- the file untouched, and `done` as the next state.
pub closed_state-received :
    (cs : List Sent) (w : World) (current_buffer k : ℕ) (ps : List (List ℕ)) (rest : List Arrival)
    (last : Bool)
    → IsReceiving w current_buffer k ps
    → IsSeries w.rx_factory.chunk_size last k cs
    → w.incoming ≡ arrivals_of cs rest
    → length cs ≤ w.session.win_size
    → (last ≡ false → w.session.win_size ≤ length cs)
    → w.session.tasks ≡ []
    → IsWindowReceived w
        (closed_state StateCode.closed rx current_buffer w)
        (ps ++ payloads_of cs)
        rest
        last
        StateCode.done
closed_state-received cs w current_buffer k ps rest last g v e fits full idle =
    (closed_state-arrived cs w current_buffer k ps rest last g v e fits full idle).0
