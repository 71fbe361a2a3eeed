-- ===== src/Session/Finish.antt =====
-- `doneState` of a receiver: the window goes to the file, and an acknowledgement goes out.
use udm.Base.{
  ℕ, zero, suc, ◌≡◌, refl, ap, ◌∙◌, Option, none, Bool, true, false, List, [], ◌∷◌, ◌++◌, ◌%◌, ◌^◌,
  take, drop, drop-nil, replicate, if◌then◌else◌,
}
use udm.Wire.{CapsuleHdr, zero_hdr, StateCode, tx, ctrl, fin_flag, sizeof_capsule}
use udm.World.{World, ok, Ref, MemBuff}
use udm.World.Memory.{put}
use udm.World.Laws.{buffer_of, put_self, put-put}
use udm.Factory.{add32, make_chunk_for_rx}
use udm.Presentation.{new_buffer}
use udm.Session.Processor.{Params, win_siz, with_params, set_cap_params}
use udm.Session.States.{params_for, drop_window}

-- The world with a new buffer for a capsule to send.
abbrev pub with_capsule : World → World
with_capsule w = record w {
  mem = put w.mem w.fresh (
      buffer_of sizeof_capsule (record zero_hdr { capid = w.hdrid % 2 ^ 16 })
        (replicate w.tx_factory.chunk_size w.env.junk) 0);
  fresh = suc w.fresh;
  tx_factory = record w.tx_factory { buffer = w.tx_factory.buffer ++ w.fresh ∷ [] };
  hdrid = add32 w.hdrid 1;
}

pub new_buffer_lem : (w : World) → new_buffer tx w ≡ ok w.fresh (with_capsule w)
unfolding new_buffer make_chunk_for_rx
new_buffer_lem w =
    rw (put_self w.mem w.fresh _, new_buffer)
      (rw (put_self w.mem w.fresh _, new_buffer) (rw put-put refl))

-- The store without the objects of a queue.
abbrev pub freed : List Ref → (Ref → Option MemBuff) → Ref → Option MemBuff
freed [] m = m
freed (r ∷ rs) m = freed rs (put m r none)

abbrev with_queue : World → List Ref → World
with_queue w b = record w { rx_factory = record w.rx_factory { buffer = b } }

take-nil : (k : ℕ) → take {A = Ref} k [] ≡ []
take-nil zero = refl
take-nil (suc k) = refl

drop_window-queue :
    (k : ℕ) (w : World) (b : List Ref)
    → drop_window k (with_queue w b)
      ≡ ok tt (with_queue (record w { mem = freed (take k b) w.mem }) (drop k b))
unfolding drop_window
drop_window-queue zero w b = refl
drop_window-queue (suc k) w [] =
    drop_window-queue k w []
    ∙ ap (λ b. ok tt (with_queue (record w { mem = freed b w.mem }) (drop k []))) (take-nil k)
    ∙ ap (λ b. ok tt (with_queue w b)) (drop-nil k)
drop_window-queue (suc k) w (r ∷ b) = drop_window-queue k (record w { mem = put w.mem r none }) b

-- The loop that empties the receiving queue drops as many objects as the window had entries.
pub drop_window_lem :
    (k : ℕ) (w : World)
    → drop_window k w
      ≡ ok tt (record w {
        mem = freed (take k w.rx_factory.buffer) w.mem;
        rx_factory = record w.rx_factory { buffer = drop k w.rx_factory.buffer };
      })
drop_window_lem k w = drop_window-queue k w w.rx_factory.buffer

-- The header of an acknowledgement.
abbrev pub ack_header : World → CapsuleHdr
ack_header w =
    with_params (record zero_hdr { cap_win_siz = win_siz }) (params_for ctrl w) w.session.capsule_id

pub set_cap_params-done :
    (r : Ref) (p : Params) (w : World) (n : ℕ) (h : CapsuleHdr) (block : List ℕ)
    → w.mem r ≡ buffer_of n h block 0
    → set_cap_params r p StateCode.done w
      ≡ ok tt (record w {
        mem = put w.mem r (
            buffer_of n
              (with_params (record h { cap_win_siz = win_siz }) p w.session.capsule_id)
              block
              0);
        session = record w.session { capsule_id = add32 w.session.capsule_id 1 };
      })
unfolding set_cap_params
set_cap_params-done r p w n h block e = rw (e, set_cap_params) (rw e)

-- The parameters of an acknowledgement: FIN is put among them for the last window, but it does not
-- get into the header.
abbrev pub ack_params : Bool → World → Params
ack_params fin w = let p = params_for ctrl w in if fin then record p { cap_flags = fin_flag } else p

pub with_params-ack :
    (fin : Bool) (w : World) (h : CapsuleHdr) (i : ℕ)
    → with_params h (ack_params fin w) i ≡ with_params h (params_for ctrl w) i
with_params-ack true w h i = refl
with_params-ack false w h i = refl
