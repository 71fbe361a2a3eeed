-- ===== src/Session/Connections.antt =====
-- Connections whose identifiers fit their fields, and the headers that carry them.
use udm.Base.{ℕ, ◌^◌, ◌<◌, refl, arith, ◌==◌, if◌then◌else◌, inl, inr, Bool-cases}
use udm.Wire.{CapsuleHdr, IsHdr, payld, ctrl}
use udm.World.{World, Connection}
use udm.Session.Processor.{Params, with_params}
use udm.Session.States.{params_for}
use udm.Session.Capsules.{IsPayloadParams}
use udm.Session.Acks.{IsControlParams}

pub record IsConn (c : Connection) : Type 0 where
  pub id_lt : c.id < 2 ^ 16
  pub src_lt : c.src < 2 ^ 8
  pub dst_lt : c.dst < 2 ^ 8

-- Every connection of a table, those that `operator[]` would make included.
abbrev pub IsConns : (ℕ → Connection) → Type 0
IsConns f = (k : ℕ) → IsConn (f k)

-- One connection is replaced.
pub set-IsConns :
    (f : ℕ → Connection) (i : ℕ) (c : Connection)
    → IsConns f
    → IsConn c
    → IsConns (λ k. if k == i then c else f k)
set-IsConns f i c v u k = elim (Bool-cases (k == i)) [
  | inl same ↦ rw same u
  | inr other ↦ rw other (v k)
]

-- Headers whose identifiers fit.
pub with_params-IsHdr :
    (h : CapsuleHdr) (p : Params) (i : ℕ)
    → IsHdr h
    → p.srcid < 2 ^ 8
    → p.destid < 2 ^ 8
    → p.connid < 2 ^ 16
    → p.cap_type < 2 ^ 2
    → IsHdr (with_params h p i)
with_params-IsHdr h p i v a b c d = record {
  srcid_lt = a;
  destid_lt = b;
  connid_lt = c;
  capid_lt = omega arith;
  cap_size_lt = v.cap_size_lt;
  cap_type_lt = d;
  cap_priority_lt = omega arith;
  cap_win_siz_lt = v.cap_win_siz_lt;
  cap_flags_lt = v.cap_flags_lt;
  capopts_lt = v.capopts_lt;
}

pub params_for-IsHdr :
    (h : CapsuleHdr) (cap_type : ℕ) (w : World) (i : ℕ)
    → IsHdr h
    → IsConns w.session.connections
    → cap_type < 2 ^ 2
    → IsHdr (with_params h (params_for cap_type w) i)
params_for-IsHdr h cap_type w i v conns d =
    let c = conns w.session.connection_count in
    with_params-IsHdr h (params_for cap_type w) i v c.src_lt c.dst_lt c.id_lt d

pub params_for-IsPayloadParams :
    (w : World) → IsConns w.session.connections → IsPayloadParams (params_for payld w)
params_for-IsPayloadParams w conns =
    let c = conns w.session.connection_count in
    record { srcid_lt = c.src_lt; destid_lt = c.dst_lt; connid_lt = c.id_lt; kind = refl }

pub params_for-IsControlParams :
    (w : World) → IsConns w.session.connections → IsControlParams (params_for ctrl w)
params_for-IsControlParams w conns =
    let c = conns w.session.connection_count in
    record { srcid_lt = c.src_lt; destid_lt = c.dst_lt; connid_lt = c.id_lt; kind = refl }
