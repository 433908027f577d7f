-- ===== src/Mpegts/Device.antt =====
-- The device of src/smpegts.c: `Dev_t`, its creation, and the operations that keep its state.
pub mod Frame
pub mod Ends
pub mod Ops
use fastvideo.Buffers.{BufferState, DeviceType, invalid, output}
use fastvideo.Prelude.{
  ◌+◌, ℕ, ◌%◌, zero, ◌*◌, suc, ◌/◌, bit_and, ◌-◌, bit_or, ◌∷◌, Bool, ◌^◌, true, ◌||◌, false, ◌==◌,
  not, ◌&&◌, List, if◌then◌else◌, [], Option, none, some, ltb, length, get_elem?, set, replicate,
}
use fastvideo.Prelude.Int.{ℤ, pos, negsuc}
use fastvideo.Mpegts.{Config, Header}
use fastvideo.Mpegts.Psi.{fourcc_mpts, setup_pat, setup_pmt, setup_sdt}
use fastvideo.Mpegts.Clock.{Timeline}
use fastvideo.Mpegts.Transport.{Proto}
use fastvideo.Mpegts.Push.{PesHeader}

-- `FrameBuffer_t`: `mem` is the memory at the pointer, `none` a null pointer; `dma_buf` is 0 for none.
pub record FrameBuffer : Type 0 where
  pub id : ℕ
  pub mem : Option (List ℕ)
  pub size : ℕ
  pub dma_buf : ℕ
  pub bytesused : ℕ
  pub flags : ℕ
  pub state : BufferState

-- `Dev_t` over the transport's context, with `errno`.
pub record Dev (Ctx : Type 0) : Type 0 where
  pub config : Config
  pub ctx : Ctx
  pub errno : ℕ
  pub frames : ℕ
  pub buffers : List FrameBuffer
  pub currentid : ℕ
  pub header : Header
  pub pes : PesHeader
  pub pat : List ℕ
  pub pmt : List ℕ
  pub sdt : List ℕ
  pub nulls : List ℕ
  pub start : ℕ
  pub pcr : ℕ
  pub timeline : Timeline
  pub periodic : ℕ
  pub klvcc : ℕ
  pub klvseq : ℕ

-- `mpegts_create`: `made` is what `proto->create` gave, `nulls` the null packet as it stands.
unfoldable pub create :
    {Ctx : Type 0} → DeviceType → Config → Option Ctx → List ℕ → Option (Dev Ctx)
create output config (some c) nulls = some (record {
  config = record config { fourcc = fourcc_mpts };
  ctx = c;
  errno = 0;
  frames = 0;
  buffers = [];
  currentid = 0;
  header = record {
    sync = b'G';
    pid2 = 0;
    prio = 0;
    pusi = 0;
    tei = 0;
    pid = (config.pid + 1) % 2 ^ 8;
    cc = 0;
    afi = 1;
    tsi = 0;
  };
  pes = record { ptsi = 3; pts = replicate 5 0; dts = replicate 5 0 };
  pat = setup_pat config;
  pmt = setup_pmt config;
  sdt = setup_sdt config;
  nulls = nulls;
  start = 0;
  pcr = 0;
  timeline = record { lastclock = 0; smoothclock = 0; period = pos 0 };
  periodic = 0;
  klvcc = 0;
  klvseq = 0;
})
create output config none nulls = none
create _ config made nulls = none

-- The buffers of `mpegts_requestbuffer`: memory from the other side, or its dma buffers.
unfoldable pub memory_buffers : ℕ → ℕ → List (List ℕ) → List FrameBuffer
memory_buffers i size [] = []
memory_buffers i size (mem ∷ mems) =
    record {
      id = i;
      mem = some mem;
      size = size;
      dma_buf = 0;
      bytesused = 0;
      flags = 0;
      state = invalid;
    }
    ∷ memory_buffers (i + 1) size mems

unfoldable pub dma_buffers : ℕ → ℕ → List ℕ → List FrameBuffer
dma_buffers i size [] = []
dma_buffers i size (fd ∷ fds) =
    record {
      id = i;
      mem = none;
      size = size;
      dma_buf = fd;
      bytesused = 0;
      flags = 0;
      state = invalid;
    }
    ∷ dma_buffers (i + 1) size fds

-- `enum buf_type_e` with its arguments; an output takes the first two and refuses the rest.
pub data Request : Type 0 where
  memory : List (List ℕ) → ℕ → Request
  dmabuf : List ℕ → ℕ → Request
  other : Request

unfoldable pub requestbuffer : {Ctx : Type 0} → Dev Ctx → Request → ℤ × Dev Ctx
unfolding memory_buffers dma_buffers
requestbuffer dev (memory mems size) = (pos 0, record dev { buffers = memory_buffers 0 size mems })
requestbuffer dev (dmabuf fds size) = (pos 0, record dev { buffers = dma_buffers 0 size fds })
requestbuffer dev other = (negsuc 0, dev)
