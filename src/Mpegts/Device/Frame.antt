-- ===== src/Mpegts/Device/Frame.antt =====
-- One frame through the device, `_client_pushdata` of src/smpegts.c as a whole: what stands before
-- the loop, the loop, the metadata, the fill, and the state of the buffer.
use fastvideo.Buffers.{BufferState, eagain}
use mathlib.Core.Option
use fastvideo.Prelude.{
  ◌+◌, ℕ, ◌%◌, suc, ◌*◌, bit_and, ◌-◌, bit_or, ◌^◌, Bool, ◌/◌, not, ◌==◌, List, ◌||◌, Option, ◌&&◌,
  none, if◌then◌else◌, some, ltb, length, set, take,
}
use fastvideo.Prelude.Int.{ℤ, pos, negsuc, ◌-ℤ◌, ltb_ℤ}
use fastvideo.Mpegts.Packets.{packetlen}
use fastvideo.Mpegts.Clock.{smoothclock}
use fastvideo.Mpegts.Klv.{klv_pes, klv_packet}
use fastvideo.Mpegts.Transport.{Proto, Sent, proto_more}
use fastvideo.Mpegts.Push.{Push, push_loop}
use fastvideo.Mpegts.Fill.{Filled, filldata}
use fastvideo.Mpegts.Device.{Dev, FrameBuffer}

-- What the clocks say during the call: seconds and nanoseconds of `CLOCK_TAI`, if it can be read,
-- and the microseconds of `CLOCK_REALTIME`.
pub record Now : Type 0 where
  pub tai : Option (ℕ × ℕ)
  pub realtime : ℕ

-- The counter at 90 kHz since the first frame, and the second that it counts from.
unfoldable pub clock_90khz : ℕ → ℕ → ℕ → ℕ × ℕ
clock_90khz start sec nsec = if start == 0 then (nsec / 1000000 * 90, sec) else (
  (((sec + (2 ^ 32 - start % 2 ^ 32)) % 2 ^ 32) * 90000 + nsec / 1000000 * 90) % 2 ^ 32,
  start,
)

-- `FB_FLAGS_KEYFRAME`
abbrev pub is_keyframe : ℕ → Bool
is_keyframe flags = not (bit_and flags 0x8 == 0)

-- `ssize_t` handed over as `size_t`.
abbrev pub to_size : ℤ → ℕ
to_size (pos n) = n % 2 ^ 64
to_size (negsuc n) = 2 ^ 64 - 1 - n % 2 ^ 64

module _ (p : Proto) where
  open p use {Ctx, send, mtu as proto_mtu, close}

  abbrev pub periodic_hit : Dev Ctx → Bool
  periodic_hit dev = not (dev.config.periodic == 0) && (dev.periodic == dev.config.periodic)

  abbrev pub random_access : Dev Ctx → FrameBuffer → ℕ
  random_access dev b = if is_keyframe b.flags || periodic_hit dev then 0x40 else 0x00

  -- The head of the function: the counter of periodic frames, the clock and the timeline. The
  -- second part of the pair is `pcr`; with a clock the header asks for an adaptation field.
  unfoldable pub frame_clock : Dev Ctx → Now → Dev Ctx × ℕ
  unfolding clock_90khz
  frame_clock dev now =
      let dev1 : Dev Ctx = record dev {
        periodic = if periodic_hit dev then 0 else dev.periodic + 1;
        header = record dev.header { pusi = 1; afi = 1 };
      } in
      elim now.tai [
        | none ↦ (dev1, 0)
        | some (sec, nsec) ↦
            let (c90khz, start) = clock_90khz dev.start sec nsec in
            let (pcr, timeline) = smoothclock dev.config.fps dev.timeline c90khz in
            (
              record dev1 {
                start = start;
                timeline = timeline;
                header = record dev1.header { afi = bit_or dev1.header.afi 0x2 };
              },
              pcr,
            )
      ]

  -- The loop's locals as it starts on the bytes of a frame.
  abbrev pub start_push : Dev Ctx → ℕ → List ℕ → Push Ctx
  start_push dev pcr bytes = record {
    ctx = dev.ctx;
    errno = dev.errno;
    ret = pos 1;
    mtu = pos (proto_mtu dev.ctx);
    rest = bytes;
    header = dev.header;
    pes = dev.pes;
    dev_pcr = dev.pcr;
    pcr = pcr;
    pts = 0;
  }

  abbrev pub after_push : Dev Ctx → Push Ctx → Dev Ctx
  after_push dev s = record dev {
    ctx = s.ctx;
    errno = s.errno;
    header = s.header;
    pes = s.pes;
    pcr = s.dev_pcr;
  }

  -- `_client_pushklv` and the lines around its call: the new `ret`, `mtu` and device.
  unfoldable pub push_metadata : Dev Ctx → FrameBuffer → Now → Push Ctx → Dev Ctx × ℤ × ℤ
  unfolding klv_pes klv_packet ◌-ℤ◌
  push_metadata dev b now s =
      let lastflags : ℕ = (if ltb_ℤ s.mtu (pos (2 * packetlen)) then 0 else proto_more) in
      let packet : List ℕ =
        klv_packet ((dev.config.pid + 2) % 2 ^ 32) dev.klvcc
          (klv_pes s.pts dev.klvseq dev.config.klvkey b.flags now.realtime) in
      let pflags : ℕ = (if ltb (to_size s.mtu) (2 * packetlen) then 0 else proto_more) in
      let sent : Sent Ctx = send dev.ctx packet pflags in
      let whole : Bool = not (ltb_ℤ sent.ret (pos packetlen) || ltb_ℤ (pos packetlen) sent.ret) in
      let dev1 : Dev Ctx = record dev {
        ctx = sent.ctx;
        errno = sent.errno;
        klvseq = (dev.klvseq + 1) % 2 ^ 8;
        klvcc = if whole then (dev.klvcc + 1) % 2 ^ 4 else dev.klvcc;
      } in
      (
        dev1,
        sent.ret,
        (if ltb_ℤ (pos 0) sent.ret
            then (if lastflags == 0 then pos (proto_mtu sent.ctx) else s.mtu -ℤ sent.ret)
            else s.mtu),
      )

  unfoldable pub metadata_part : Dev Ctx → FrameBuffer → Now → Push Ctx → Dev Ctx × ℤ × ℤ
  unfolding push_metadata
  metadata_part dev b now s =
      if ltb_ℤ (pos 0) s.ret && dev.config.meta
      then push_metadata dev b now s
      else (dev, s.ret, s.mtu)

  abbrev pub after_fill : Dev Ctx → Filled p → Dev Ctx × ℤ
  after_fill dev g = (
    record dev {
      ctx = g.state.ctx;
      errno = g.state.errno;
      pmt = g.pmt;
      pat = g.pat;
      sdt = g.sdt;
      nulls = g.nulls;
    },
    g.value,
  )

  unfoldable pub fill_part : Dev Ctx × ℤ × ℤ → Option (Dev Ctx × ℤ)
  fill_part (dev, ret, mtu) =
      if ltb_ℤ (pos 0) ret
      then Option.map (after_fill dev)
          (filldata p dev.ctx dev.errno (to_size mtu) dev.pmt dev.pat dev.sdt dev.nulls)
      else some (dev, ret)

  abbrev pub set_state : Dev Ctx → ℕ → FrameBuffer → BufferState → Dev Ctx
  set_state dev id b state = record dev {
    buffers = set dev.buffers id (record b { state = state });
  }

  -- The end of the function: a failure other than `EAGAIN` closes the transport, and anything else
  -- makes the buffer ready.
  unfoldable pub finish_frame : ℕ → FrameBuffer → Dev Ctx × ℤ → ℤ × Dev Ctx
  finish_frame id b (dev, ret) =
      if ltb_ℤ ret (pos 0)
      then (ret, if dev.errno == eagain then dev else record dev { ctx = close dev.ctx })
      else (pos 0, set_state dev id b BufferState.ready)

  -- The function, for the buffer `b` at `id` whose memory holds `bytes`. The loop is given one
  -- round more than there are bytes.
  unfoldable pub pushdata : Dev Ctx → ℕ → FrameBuffer → List ℕ → Now → Option (ℤ × Dev Ctx)
  unfolding frame_clock metadata_part fill_part finish_frame
  pushdata dev id b bytes now =
      let (dev1, pcr) = frame_clock dev now in
      let frame : List ℕ = take b.bytesused bytes in
      Option.bind
        (push_loop p (suc (length frame)) (random_access dev b) (start_push dev1 pcr frame))
        (λ s.
          Option.map (finish_frame id b) (fill_part (metadata_part (after_push dev1 s) b now s)))
