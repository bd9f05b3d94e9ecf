-- ===== src/TcpConnection/Samples.antt =====
-- Connections at concrete values, for the tests of net/tcp_connection/tcp_connection.cc.
use moony.Prelude.{refl, true, false, [], ◌∷◌, arith, some, lookup}
use moony.Epoll.{none_set}
use moony.Epoll.Table.{table_epoll}
use moony.Channel.{Channel, added, read_event, is_writing}
use moony.EventLoop.Counting.{counting}
use moony.Buffer.{Buffer, readable_bytes}
use moony.TcpConnection.{World, connected}
use moony.TcpConnection.Sound.{IsSound, Flows}

-- Twelve bytes of storage, none readable.
abbrev pub empty_buffer : Buffer
empty_buffer = record {
  buffer = 0 ∷ 0 ∷ 0 ∷ 0 ∷ 0 ∷ 0 ∷ 0 ∷ 0 ∷ 0 ∷ 0 ∷ 0 ∷ 0 ∷ [];
  reader_idx = 8;
  writer_idx = 8;
}

-- The same with 1 and 2 readable.
abbrev pub filled_buffer : Buffer
filled_buffer = record {
  buffer = 0 ∷ 0 ∷ 0 ∷ 0 ∷ 0 ∷ 0 ∷ 0 ∷ 0 ∷ 1 ∷ 2 ∷ 0 ∷ 0 ∷ [];
  reader_idx = 8;
  writer_idx = 10;
}

-- The channel of descriptor 7, watched for reading.
abbrev pub reading : Channel
reading = record {
  addr = 100;
  fd = 7;
  events = read_event;
  revents = none_set;
  idx = added;
  tie = some 1;
  tied = true;
  read_set = true;
  write_set = true;
  close_set = true;
  error_set = true;
}

-- A connected connection in the loop of thread 5, with nothing to write.
abbrev pub calm : World table_epoll counting
calm = record {
  conn = record {
    self = 1;
    state = connected;
    channel = reading;
    input = empty_buffer;
    output = empty_buffer;
    high_water_mark = 64;
    connection_set = true;
    message_set = true;
    close_set = true;
    write_complete_set = true;
    high_water_set = true;
  };
  poller = record { channels = (7, 100) ∷ []; capacity = 16; kernel = (7, (read_event, 100)) ∷ [] };
  loop = record {
    looping = true;
    quitting = false;
    thread_id = 5;
    counter = 0;
    calling = false;
    pending = [];
  };
  events = [];
}

pub calm-IsSound : IsSound table_epoll counting calm
unfolding lookup
calm-IsSound = record {
  connection_set = refl;
  message_set = refl;
  close_set = refl;
  input = omega arith;
  output = omega arith;
  sync = (refl, refl);
}

pub calm-Flows : Flows table_epoll counting calm
unfolding is_writing readable_bytes
calm-Flows = refl

-- The same with 1 and 2 to write, watched for writing too.
abbrev pub busy : World table_epoll counting
busy = record calm {
  conn = record calm.conn {
    channel = record reading { events = record read_event { epollout = true } };
    output = filled_buffer;
  };
  poller = record calm.poller { kernel = (7, (record read_event { epollout = true }, 100)) ∷ [] };
}

pub busy-IsSound : IsSound table_epoll counting busy
unfolding lookup
busy-IsSound = record {
  connection_set = refl;
  message_set = refl;
  close_set = refl;
  input = omega arith;
  output = omega arith;
  sync = (refl, refl);
}

pub busy-Flows : Flows table_epoll counting busy
unfolding is_writing readable_bytes
busy-Flows = refl
