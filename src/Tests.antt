-- ===== src/Tests.antt =====
-- Concrete runs: a transport that takes every byte, and small devices, frames and timelines over it.
mod Devices
mod Media
mod Files
mod Belt
mod Capture
mod Streams
use fastvideo.Buffers.{DeviceType, BufferState, done, eagain, fault, is_busy}
use fastvideo.Prelude.{
  ◌+◌, zero, suc, ◌<◌, ltb, get_elem?, ◌≢◌, ℕ, ◌≡◌, refl, ◌⊎◌, inl, ◌∷◌, true, ◌^◌, false, ◌≤◌,
  List, ◌/◌, [], ◌++◌, none, some, length, get_or, arith,
}
use fastvideo.Prelude.Int.{ℤ, pos, negsuc}
use fastvideo.Crc.{crc32, be32}
use fastvideo.Crc.Bitwise.{bit_crc, crc32-eq-bit_crc}
use fastvideo.Crc.Residue.{crc32-append_be32}
use fastvideo.Mpegts.{Config, Header}
use fastvideo.Mpegts.Psi.{setup_pat, setup_pmt, setup_sdt}
use fastvideo.Mpegts.Psi.Section.{IsTable, setup_pmt-IsTable, tables_checked}
use fastvideo.Mpegts.Clock.{Timeline, smoothclock, drift, far}
use fastvideo.Mpegts.Clock.Laws.{
  IsTimeline, Ahead, Near, due, smoothclock-IsTimeline, smoothclock-Ahead, smoothclock-Near,
}
use fastvideo.Mpegts.Transport.{Proto, IsReliable}
use fastvideo.Mpegts.Push.{Push, PesHeader, push_loop}
use fastvideo.Mpegts.Push.Packet.{IsReady}
use fastvideo.Mpegts.Push.Loop.{Delivers, push_loop-Delivers, push_loop_ends}
use fastvideo.Mpegts.Klv.{klv_packet, klv_pes, sixteen}
use fastvideo.Mpegts.Klv.Parse.{parse, parse-klv_packet}
use fastvideo.Mpegts.Fill.{Filled, filldata, next_null}
use fastvideo.Mpegts.Fill.Laws.{filldata_ends, next_null-control}
use fastvideo.Mpegts.Packets.{nullpacket}
use fastvideo.Mpegts.Device.{Dev, FrameBuffer}
use fastvideo.Mpegts.Device.Frame.{Now, pushdata}
use fastvideo.Mpegts.Device.Ends.{pushdata_ends}
use fastvideo.Mpegts.Device.Ops.{dequeue, queue, Dequeued}
use fastvideo.Mpegts.Device.Ops.Dequeue.{IsGiven, IsEmpty, dequeue-cases}
use fastvideo.Mpegts.Device.Ops.Queue.{queue-returns, queue-past_end}
use fastvideo.Tile.{TileConf, Grid, create}
use fastvideo.Tile.Centred.{Centred, create-Centred}
use fastvideo.Tile.Rows.{
  TileDevice, stile_create, of_grid, stile_duplicate, duplicated, stile_start, row_read,
}
use fastvideo.Tile.Rows.Unset.{NoneRead, stile_start-NoneRead}
use fastvideo.Tile.Ring.{Ring, put, take_tile}
use fastvideo.Tile.Ring.Fifo.{IsRing, contents, ready_at, wrap}
use fastvideo.Tile.Ring.Put.{put-cases}
use fastvideo.Tile.Ring.Take.{take_tile-cases}

-- A transport whose context is what it has taken.
abbrev wire : Proto
wire = record {
  Ctx = List ℕ;
  connect = λ c. (pos 0, c);
  close = λ c. c;
  mtu = λ c. 1400;
  fd = λ c. negsuc 0;
  send = λ c bytes flags. record { ret = pos (length bytes); errno = 0; ctx = c ++ bytes };
  flush = λ c. c;
}

abbrev wire_reliable : IsReliable wire
wire_reliable = record { taken = λ c. c; all_taken = λ c bytes flags. (refl, refl) }

abbrev camera : Config
camera = record {
  fourcc = 0x34363248;
  fps = 25;
  pid = 0x100;
  periodic = 0;
  maxframes = 0;
  meta = true;
  klvkey = λ i. i;
  name = λ i. 0x61;
}

abbrev plain_header : Header
plain_header = record {
  sync = 0x47;
  pid2 = 0;
  prio = 0;
  pusi = 1;
  tei = 0;
  pid = 1;
  cc = 15;
  afi = 1;
  tsi = 0;
}

abbrev plain_pes : PesHeader
plain_pes = record { ptsi = 3; pts = 0 ∷ 0 ∷ 0 ∷ 0 ∷ 0 ∷ []; dts = 0 ∷ 0 ∷ 0 ∷ 0 ∷ 0 ∷ [] }

abbrev three_bytes : Push (List ℕ)
three_bytes = record {
  ctx = [];
  errno = 0;
  ret = pos 1;
  mtu = pos 1316;
  rest = 0x00 ∷ 0x01 ∷ 0x65 ∷ [];
  header = plain_header;
  pes = plain_pes;
  dev_pcr = 0;
  pcr = 90000;
  pts = 0;
}

three_bytes-IsReady : IsReady three_bytes
three_bytes-IsReady = record {
  fields = record {
    sync = refl;
    pid2 = omega arith;
    prio = omega arith;
    tei = omega arith;
    cc = omega arith;
    tsi = omega arith;
  };
  unit_start = omega arith;
  control = inl refl;
  stamped = refl;
}

push_loop-Delivers_example : Delivers wire wire_reliable 4 0x40 three_bytes
push_loop-Delivers_example =
    push_loop-Delivers wire wire_reliable 0x40 4 three_bytes three_bytes-IsReady refl (omega arith)

crc32-eq-bit_crc_example : crc32 (0x47 ∷ 0x00 ∷ 0xff ∷ []) ≡ bit_crc (0x47 ∷ 0x00 ∷ 0xff ∷ [])
crc32-eq-bit_crc_example =
    crc32-eq-bit_crc (0x47 ∷ 0x00 ∷ 0xff ∷ []) (omega arith, (omega arith, (omega arith, tt)))

crc32-append_be32_example : crc32 ((1 ∷ 2 ∷ []) ++ be32 (crc32 (1 ∷ 2 ∷ []))) ≡ 0
crc32-append_be32_example = crc32-append_be32 (1 ∷ 2 ∷ [])

tables_checked_example : IsTable (setup_pat camera) × IsTable (setup_sdt camera)
tables_checked_example = tables_checked camera

setup_pmt-IsTable_example : IsTable (setup_pmt camera)
setup_pmt-IsTable_example = setup_pmt-IsTable camera

parse-klv_packet_example :
    parse (klv_packet 0x102 3 (klv_pes 180000 7 (λ i. i) 1 1700000000))
    ≡ some (record {
      pid = 0x102;
      counter = 3;
      pts = 180000;
      seq = 7;
      key = sixteen (λ i. i);
      flags = 1;
      timestamp = 1700000000;
    })
parse-klv_packet_example =
    parse-klv_packet 0x102 3 180000 7 (λ i. i) 1 1700000000 (omega arith) (omega arith)
      (omega arith)

-- A timeline at 25 frames a second, one second in.
abbrev steady : Timeline
steady = record { lastclock = 90000; smoothclock = 90000; period = pos 3600 }

steady-IsTimeline : IsTimeline steady
steady-IsTimeline = record {
  last_fits = omega arith;
  smooth_fits = omega arith;
  period_sound = record { nonneg = omega arith; small = omega arith };
}

smoothclock-IsTimeline_example :
    IsTimeline (smoothclock 25 steady 93700).1
    × ((smoothclock 25 steady 93700).1.lastclock ≡ 93700)
    × ((smoothclock 25 steady 93700).1.smoothclock ≡ (smoothclock 25 steady 93700).0)
smoothclock-IsTimeline_example =
    smoothclock-IsTimeline 25 93700 steady (omega arith) steady-IsTimeline

smoothclock-Ahead_example :
    Ahead (smoothclock 25 steady 93700).0 90000
    ⊎ (((smoothclock 25 steady 93700).0 ≡ 93700)
        × (far (drift 93700 (due (smoothclock 25 steady 93700).1.period 90000)) ≡ true))
smoothclock-Ahead_example =
    smoothclock-Ahead 25 93700 steady (omega arith) steady-IsTimeline (omega arith)

smoothclock-Near_example : Near 93700 (smoothclock 25 steady 93700).0
unfolding smoothclock
smoothclock-Near_example =
    smoothclock-Near 25 93700 steady (omega arith) steady-IsTimeline (omega arith) (omega arith)

filldata_ends_example :
    (g : Filled wire) × (filldata wire [] 0 400
        (setup_pmt camera)
        (setup_pat camera)
        (setup_sdt camera)
        nullpacket
      ≡ some g)
    × ((g.state.ret ≢ pos 188) ⊎ (g.state.mtu ≤ 188))
filldata_ends_example =
    filldata_ends wire [] 0 400 (setup_pmt camera) (setup_pat camera) (setup_sdt camera) nullpacket
      (omega arith)

abbrev sent_buffer : FrameBuffer
sent_buffer = record {
  id = 0;
  mem = some (0x00 ∷ 0x01 ∷ 0x65 ∷ []);
  size = 4096;
  dma_buf = 0;
  bytesused = 3;
  flags = 1;
  state = BufferState.ready;
}

abbrev free_buffer : FrameBuffer
free_buffer = record sent_buffer { id = 1; state = BufferState.dequeued }

-- A device with a buffer to give back and one to queue.
abbrev streaming : Dev (List ℕ)
streaming = record {
  config = camera;
  ctx = [];
  errno = 0;
  frames = 0;
  buffers = sent_buffer ∷ free_buffer ∷ [];
  currentid = 1;
  header = plain_header;
  pes = plain_pes;
  pat = setup_pat camera;
  pmt = setup_pmt camera;
  sdt = setup_sdt camera;
  nulls = nullpacket;
  start = 0;
  pcr = 0;
  timeline = steady;
  periodic = 0;
  klvcc = 0;
  klvseq = 0;
}

abbrev today : Now
today = record { tai = some (12, 0); realtime = 1700000000 }

pushdata_ends_example :
    (result : ℤ × Dev (List ℕ)) × (pushdata wire streaming 1 free_buffer
        (0x00 ∷ 0x01 ∷ 0x65 ∷ [])
        today
      ≡ some result)
pushdata_ends_example = pushdata_ends wire streaming 1 free_buffer (0x00 ∷ 0x01 ∷ 0x65 ∷ []) today

dequeue-cases_example :
    (out : Dequeued wire) × (dequeue wire streaming none 0 ≡ done out)
    × (IsGiven wire streaming out ⊎ IsEmpty wire streaming out)
dequeue-cases_example = dequeue-cases wire streaming none 0 (omega arith)

-- A frame of 1000 by 480 pixels in tiles of 320 by 200.
abbrev split_frame : TileConf
split_frame = record { width = 1000; height = 480; tile_width = 320; tile_height = 200; ntiles = 0 }

abbrev split_grid : Grid
split_grid = record {
  src_width = 1000;
  src_height = 480;
  dst_width = 320;
  dst_height = 200;
  ntiles_x = 3;
  ntiles_y = 2;
  ntiles = 6;
  tile_xoff = 20;
  tile_yoff = 40;
}

split_grid-made : create split_frame true ≡ some split_grid
unfolding create
split_grid-made = refl

create-Centred_example : Centred split_grid
create-Centred_example =
    create-Centred split_frame true split_grid (omega arith) (omega arith) split_grid-made

abbrev split_device : TileDevice
split_device = record {
  kind = DeviceType.transfer;
  grid = split_grid;
  src_stride = 0;
  src2dst_stride = 0;
  curbuffer = none;
}

abbrev split_writer : TileDevice
split_writer = record split_device { kind = DeviceType.output }

abbrev split_reader : TileDevice
split_reader = record {
  kind = DeviceType.input;
  grid = record {
    src_width = 0;
    src_height = 0;
    dst_width = 0;
    dst_height = 0;
    ntiles_x = 0;
    ntiles_y = 0;
    ntiles = 6;
    tile_xoff = 0;
    tile_yoff = 0;
  };
  src_stride = 0;
  src2dst_stride = 0;
  curbuffer = none;
}

split_device-made : stile_create DeviceType.transfer split_frame true ≡ some split_device
unfolding stile_create of_grid create
split_device-made = refl

split_device-shared : stile_duplicate split_device ≡ some (split_writer, split_reader)
unfolding stile_duplicate duplicated
split_device-shared = refl

stile_start-NoneRead_example : NoneRead split_grid (row_read (stile_start 2 split_writer) 2 1 7)
stile_start-NoneRead_example =
    stile_start-NoneRead DeviceType.transfer split_frame true split_device split_writer split_reader
      2 2 1 7 split_device-made split_device-shared

-- Three slots, of which the last holds a tile to read.
abbrev three_slots : Ring
three_slots = record {
  slots =
      record { state = BufferState.dequeued; tile = [] }
      ∷ record { state = BufferState.dequeued; tile = [] }
      ∷ record { state = BufferState.ready; tile = 1 ∷ 2 ∷ [] }
      ∷ [];
  writeid = 0;
  readid = 2;
  pending = 1;
}

three_slots-IsRing : IsRing three_slots
three_slots-IsRing = record {
  read_in = omega arith;
  pending_in = omega arith;
  write_at = refl;
  marks = λ k below. mark k below;
}
  where
    mark : (k : ℕ) → k < 3 → ready_at (get_elem? three_slots.slots (wrap 3 (2 + k))) ≡ ltb k 1
    mark zero below = refl
    mark (suc zero) below = refl
    mark (suc (suc zero)) below = refl
    mark (suc (suc (suc k))) below = absurd (omega arith)

put-cases_example :
    ((r' : Ring) × (put three_slots (3 ∷ []) ≡ some r')
      × IsRing r'
      × (contents r' ≡ contents three_slots ++ ((3 ∷ []) ∷ [])))
    ⊎ ((put three_slots (3 ∷ []) ≡ none) × (three_slots.pending ≡ length three_slots.slots))
put-cases_example = put-cases three_slots (3 ∷ []) three_slots-IsRing

take_tile-cases_example :
    ((tile : List ℕ) × (r' : Ring) × (take_tile three_slots ≡ some (2, tile, r'))
      × IsRing r'
      × (contents three_slots ≡ tile ∷ contents r'))
    ⊎ ((take_tile three_slots ≡ none) × (contents three_slots ≡ []))
take_tile-cases_example = take_tile-cases three_slots three_slots-IsRing
