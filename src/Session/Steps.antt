-- ===== src/Session/Steps.antt =====
-- The two ends of a session that run by turns: a state of one end runs to its end, and what it has sent
-- comes in at the other end, in order.
use udm.Base.{ℕ, true, some, ◌≡◌, sym, subst, ◌∙◌, append-nil, false, List, [], ◌++◌}
use udm.Wire.{StateCode, tx, rx}
use udm.World.{DataSource, World, ok, Packet, Ref, Arrival, SockAddr}
use udm.Presentation.Written.{appended}
use udm.Session.States.{step, is_over}
use udm.Session.Capsules.{delivered}

-- The world to which more has come.
abbrev pub came : List Arrival → World → World
came xs w = record w { incoming = w.incoming ++ xs }

-- From a sender and a receiver to what becomes of them. `here` is where the sender's datagrams come from,
-- `there` where the receiver's do; `r` and `q` are the buffers of the two calls of `start`.
pub data Steps (here there : SockAddr) (r q : Ref) : World → World → World → World → Type 0 where
  rests : {w v : World} → Steps here there r q w v w v
  sends :
      {w w' v x y : World} (ps : List Packet)
      → is_over w ≡ false
      → step tx r w.session.next w ≡ ok tt w'
      → w'.outgoing ≡ w.outgoing ++ ps
      → Steps here there r q w' (came (delivered here ps []) v) x y
      → Steps here there r q w v x y
  receives :
      {w v v' x y : World} (ps : List Packet)
      → is_over v ≡ false
      → step rx q v.session.next v ≡ ok tt v'
      → v'.outgoing ≡ v.outgoing ++ ps
      → Steps here there r q (came (delivered there ps []) w) v' x y
      → Steps here there r q w v x y

-- The file goes through in steps.
pub record IsExchanged (here there : SockAddr) (r q : Ref) (w v : World) (t : DataSource)
    (bytes : List ℕ) : Type 0 where
  pub sent : World
  pub got : World
  pub steps : Steps here there r q w v sent got
  pub sender_over : is_over sent ≡ true
  pub receiver_over : is_over got ≡ true
  pub file : got.rx_factory.source_data ≡ some (appended t bytes)
  pub sender_read : sent.incoming ≡ []
  pub receiver_read : got.incoming ≡ []

module _ {here there : SockAddr} {r q : Ref} where
  -- A state that is known runs.
  pub sends-at :
      (code : StateCode) (ps : List Packet) {w w' v x y : World}
      → w.session.next ≡ code
      → is_over w ≡ false
      → step tx r code w ≡ ok tt w'
      → w'.outgoing ≡ w.outgoing ++ ps
      → Steps here there r q w' (came (delivered here ps []) v) x y
      → Steps here there r q w v x y
  sends-at code ps {w = w} {w' = w'} at_code more runs out rest =
      sends ps more (subst (λ c. step tx r c w ≡ ok tt w') (sym at_code) runs) out rest

  pub receives-at :
      (code : StateCode) (ps : List Packet) {w v v' x y : World}
      → v.session.next ≡ code
      → is_over v ≡ false
      → step rx q code v ≡ ok tt v'
      → v'.outgoing ≡ v.outgoing ++ ps
      → Steps here there r q (came (delivered there ps []) w) v' x y
      → Steps here there r q w v x y
  receives-at code ps {v = v} {v' = v'} at_code more runs out rest =
      receives ps more (subst (λ c. step rx q c v ≡ ok tt v') (sym at_code) runs) out rest

  -- A state that says nothing.
  pub receives-silent :
      (code : StateCode) {w v v' x y : World}
      → v.session.next ≡ code
      → is_over v ≡ false
      → step rx q code v ≡ ok tt v'
      → v'.outgoing ≡ v.outgoing
      → Steps here there r q w v' x y
      → Steps here there r q w v x y
  receives-silent code {w = w} {v = v} {v' = v'} {x = x} {y = y} at_code more runs silent rest =
      receives-at code [] at_code more runs (silent ∙ sym (append-nil v.outgoing)) (
        subst (λ xs. Steps here there r q (record w { incoming = xs }) v' x y)
          (sym (append-nil w.incoming)) rest)

  pub sends-silent :
      (code : StateCode) {w w' v x y : World}
      → w.session.next ≡ code
      → is_over w ≡ false
      → step tx r code w ≡ ok tt w'
      → w'.outgoing ≡ w.outgoing
      → Steps here there r q w' v x y
      → Steps here there r q w v x y
  sends-silent code {w = w} {w' = w'} {v = v} {x = x} {y = y} at_code more runs silent rest =
      sends-at code [] at_code more runs (silent ∙ sym (append-nil w.outgoing)) (
        subst (λ xs. Steps here there r q w' (record v { incoming = xs }) x y)
          (sym (append-nil v.incoming)) rest)
