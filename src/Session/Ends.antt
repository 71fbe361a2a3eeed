-- ===== src/Session/Ends.antt =====
-- The two ends of a session before a file goes from one to the other, and what it is that it went.
use udm.Base.{ℕ, suc, ◌+◌, ◌-◌, ◌*◌, ◌≤◌, ◌<◌, ◌^◌, ◌≡◌, true, some, List, ◌++◌}
use udm.Wire.{header_space, payld, ctrl}
use udm.World.{World, Run, ok, DataSource, Address, Packet, Ref, Arrival, SockAddr}
use udm.Factory.Load.{IsReading}
use udm.Presentation.Written.{appended, IsWriting}
use udm.Session.Processor.{win_siz}
use udm.Session.States.{params_for, is_over}
use udm.Session.Rounds.{IsOpen}
use udm.Session.SentFile.{IsSending}
use udm.Session.Capsules.{delivered, IsPayloadParams}
use udm.Session.Acks.{IsControlParams}
use udm.Session.Listening.{IsListening}

-- A sender with the file `s` to read in chunks of `n` bytes: `j` windows of full chunks, `k` full chunks
-- more, and a last one of `e` bytes.
pub record IsSender (w : World) (s : DataSource) (n : ℕ) (addresses : List Address) (j k e : ℕ)
    : Type 0 where
  pub reading : IsReading s n
  pub size :
      s.file_size ≡ s.pos + (j * (win_siz * (n - header_space)) + (k * (n - header_space) + e))
  pub some_left : 0 < e
  pub less : e < n - header_space
  pub narrow : k < win_siz
  pub net : IsOpen w addresses (j * win_siz + suc k)
  pub sending : IsSending w
  pub params : IsPayloadParams (params_for payld w)
  pub no_wrap : w.session.capsule_id + (j * win_siz + suc k) ≤ 2 ^ 16
  pub room : header_space ≤ w.rx_factory.chunk_size

-- A receiver with the file `t` to write, on whose device there is room for `size` bytes more, and which
-- takes chunks of `n` bytes; `j` windows and a last one can be acknowledged.
pub record IsReceiver (v : World) (current_buffer : Ref) (t : DataSource) (n : ℕ)
    (addresses : List Address) (j size : ℕ) : Type 0 where
  pub listening : IsListening v current_buffer
  pub opened : v.rx_factory.source_data ≡ some t
  pub writes : IsWriting t size
  pub net : IsOpen v addresses (suc j)
  pub params : IsControlParams (params_for ctrl v)
  pub wide : n ≤ v.rx_factory.chunk_size

-- Two runs that end with `done`, of which each gets what the other sent: `there` is where the receiver's datagrams
-- come from, `here` where the sender's do. `later` and `rest` are left to come, and the receiver has put
-- `bytes` at the end of `t`.
pub record IsTransferred {A : Type 0} (done : A) (w v : World)
    (sends receives : List Arrival → Run A) (t : DataSource) (here there : SockAddr)
    (bytes : List ℕ) (later rest : List Arrival) : Type 0 where
  pub packets : List Packet
  pub acks : List Packet
  pub sent : World
  pub got : World
  pub sender_ends : sends (delivered there acks later) ≡ ok done sent
  pub receiver_ends : receives (delivered here packets rest) ≡ ok done got
  pub sender_out : sent.outgoing ≡ w.outgoing ++ packets
  pub receiver_out : got.outgoing ≡ v.outgoing ++ acks
  pub sender_over : is_over sent ≡ true
  pub receiver_over : is_over got ≡ true
  pub file : got.rx_factory.source_data ≡ some (appended t bytes)
  pub sender_left : sent.incoming ≡ later
  pub receiver_left : got.incoming ≡ rest

-- What is to come does not matter for these.
pub IsOpen-came :
    (w : World) (addresses : List Address) (k : ℕ) (xs : List Arrival)
    → IsOpen w addresses k
    → IsOpen (record w { incoming = xs }) addresses k
IsOpen-came w addresses k xs o = record {
  told = o.told;
  some_left = o.some_left;
  within = o.within;
  no_wrap = o.no_wrap;
  sent = o.sent;
}

pub IsSending-came :
    (w : World) (xs : List Arrival) → IsSending w → IsSending (record w { incoming = xs })
IsSending-came w xs g = record {
  at_closed = g.at_closed;
  window = g.window;
  idle = g.idle;
  read = g.read;
}

pub IsListening-came :
    (w : World) (current_buffer : Ref) (xs : List Arrival)
    → IsListening w current_buffer
    → IsListening (record w { incoming = xs }) current_buffer
IsListening-came w current_buffer xs g = record {
  at_closed = g.at_closed;
  window_size = g.window_size;
  idle = g.idle;
  no_entries = g.no_entries;
  more = g.more;
  apart = record { older = g.apart.older; queue = g.apart.queue };
  size = g.size;
  no_capsule = g.no_capsule;
  room = g.room;
}
