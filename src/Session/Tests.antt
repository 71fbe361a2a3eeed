-- ===== src/Session/Tests.antt =====
-- Runs of the two ends on a small file, in chunks of fifty bytes.
use udm.Base.{ℕ, ◌≡◌, refl, Option, none, some, true, List, [], ◌∷◌, arith, has_bits}
use udm.Wire.{StateCode, tx, rx, encode, decode}
use udm.World.{World, Run, ok, halt, Halt, exited, Packet, Arrival, datagram, DataSource}
use udm.Factory.Load.{IsReading, at_chunk}
use udm.Samples.{
  world, small, input, output, hears, other, eth_address, bytes_from, told, told-IsRouted,
  input-IsReading,
}
use udm.Factory.{
  fetch_chunk, get_amount_read, input_by_mode, input_from_source, load_chunk, prepare_mem_buff,
  push, read_stream, try_pop, update_data_source, write2_source, write_bytes, write_stream,
  make_chunk_for_rx,
}
use udm.Gateway.Interfaces.{count_interfaces, list_interfaces}
use udm.Gateway.{
  no_of_interfaces, chunk_write, copy_header, receive_into, recvfrom, select_addr_from_list, sendto,
  strip_header, pull, receive, send,
}
use udm.Presentation.{construct_chunk, write2_souce, write_window, new_buffer}
use udm.Session.Peers.{
  is_localhost, read_addresses, strip_localhost, strip_step, take_peers, write_addresses,
}
use udm.Session.Processor.{
  gen_conn_id, gen_src_id, insert_window, params_of, process_code, process_payload, set_cap_params,
  process,
}
use udm.Session.States.{
  start, submit_chunk, submit_task, accept_payload, add_connection, await_payload, deliver,
  done_state, drop_front, drop_window, mark_last, receive_pulled, send_new, state_loop, step,
  take_received, window_loop, open_state, setup_state, connected_state, closed_state, send_state,
  receive_state,
}
use udm.World.Memory.{
  alloc, copy_in, copy_out, free, load, load_cap, overwrite, put, slice, store, store_cap,
}
use udm.Presentation
use udm.Session.Hello.{IsGreeting, open_state-srcid}
use udm.Session.Graph.{After, step-After, IsState, here, round, Rounds-IsState}
use udm.Session.Sender.{submit_chunk-more, submit_chunk-end, chunk_sent}

sender : ℕ → Run (Unit {0})
unfolding count_interfaces list_interfaces no_of_interfaces fetch_chunk get_amount_read
    input_by_mode input_from_source load_chunk prepare_mem_buff push read_stream try_pop
    update_data_source write2_source write_bytes write_stream make_chunk_for_rx chunk_write
    copy_header receive_into recvfrom select_addr_from_list sendto strip_header pull receive send
    construct_chunk write2_souce write_window new_buffer is_localhost read_addresses strip_localhost
    strip_step take_peers write_addresses gen_conn_id gen_src_id insert_window params_of
    process_code process_payload set_cap_params process start submit_chunk submit_task
    accept_payload add_connection await_payload deliver done_state drop_front drop_window mark_last
    receive_pulled send_new state_loop step take_received window_loop open_state setup_state
    connected_state closed_state send_state receive_state alloc copy_in copy_out free load load_cap
    overwrite put slice store store_cap encode decode has_bits Presentation.set_cap_params
    Presentation.process
sender n = start 10 tx (world (record small { source_data = some (input n) }) small hears)

receiver : List Arrival → Run (Unit {0})
unfolding sender
receiver arrivals = start 10 rx (world small (record small { source_data = some output }) arrivals)

abbrev outgoing_of : Run (Unit {0}) → List Packet
outgoing_of (ok _ w) = w.outgoing
outgoing_of (halt h w) = w.outgoing

abbrev as_arrivals : List Packet → List Arrival
as_arrivals [] = []
as_arrivals (p ∷ rest) = datagram p.bytes other true ∷ as_arrivals rest

abbrev written_of : Run (Unit {0}) → Option (List ℕ)
written_of (ok _ w) = elim w.rx_factory.source_data [ none ↦ none | some s ↦ some s.content ]
written_of (halt h w) = none

abbrev halt_of : Run (Unit {0}) → Option Halt
halt_of (ok _ w) = none
halt_of (halt h w) = some h

-- What the sender sends of a file of 50 bytes, the receiver writes.
transfer_fifty :
    written_of (receiver (as_arrivals (outgoing_of (sender 50)))) ≡ some (bytes_from 50 1)
unfolding receiver
transfer_fifty = refl

-- A file of two whole chunks ends the sender with an error.
two_whole_chunks : halt_of (sender 72) ≡ some (exited 1)
unfolding sender
two_whole_chunks = refl

submit_chunk-more_example :
    submit_chunk StateCode.closed (at_chunk told (input 50) 50)
    ≡ ok tt (chunk_sent told (input 50) 50 (eth_address ∷ []))
submit_chunk-more_example =
    submit_chunk-more told (input 50) 50 (eth_address ∷ []) input-IsReading (omega arith)
      told-IsRouted refl

abbrev used_up : DataSource
used_up = record (input 72) { pos = 72 }

used_up-IsReading : IsReading used_up 50
used_up-IsReading = record {
  for_input = refl;
  good = refl;
  whole = refl;
  small = omega arith;
  read_part = omega arith;
  count_fits = omega arith;
  chunk_gt = omega arith;
  chunk_fits = omega arith;
}

submit_chunk-end_example :
    submit_chunk StateCode.closed (at_chunk told used_up 50)
    ≡ halt (exited 1) (record (at_chunk told used_up 50) {
      tx_factory = record (at_chunk told used_up 50).tx_factory { fin = true };
    })
submit_chunk-end_example = submit_chunk-end told used_up 50 used_up-IsReading refl

-- The receiver says hello.
said : Run (Unit {0})
unfolding sender
said = step rx 0 StateCode.open_state (world small small [])

abbrev world_of : Run (Unit {0}) → World
world_of (ok _ w) = w
world_of (halt h w) = w

hello-returns : step rx 0 StateCode.open_state (world small small []) ≡ ok tt (world_of said)
unfolding said
hello-returns = refl

step-After_example : After rx StateCode.open_state (world_of said)
step-After_example =
    step-After rx 0 StateCode.open_state (world small small []) (world_of said) hello-returns

Rounds-IsState_example : IsState (world_of said).session.next
Rounds-IsState_example =
    Rounds-IsState rx 0 (world small small []) (world_of said) tt (round here refl hello-returns)

open_state-srcid_example :
    IsGreeting (world small small []) (open_state StateCode.open_state rx 0 (world small small []))
open_state-srcid_example =
    open_state-srcid 0 (world small small []) refl (omega arith) refl refl (omega arith)
