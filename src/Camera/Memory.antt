-- ===== src/Camera/Memory.antt =====
-- The buffers of src/sv4l2.c, with one plane and with several, and how they are made.
use fastvideo.Prelude.{
  ℕ, zero, suc, ◌+◌, ◌^◌, ◌%◌, List, [], ◌∷◌, Bool, true, false, Option, none, if◌then◌else◌,
  get_or, set, replicate,
}
use fastvideo.Camera.{BufType}

-- `enum v4l2_memory`; `unset` is 0.
pub data MemoryKind : Type 0 where
  unset mmap userptr dmabuf : MemoryKind

abbrev pub is_mmap : MemoryKind → Bool
is_mmap mmap = true
is_mmap _ = false

abbrev pub is_userptr : MemoryKind → Bool
is_userptr userptr = true
is_userptr _ = false

abbrev pub is_dmabuf : MemoryKind → Bool
is_dmabuf dmabuf = true
is_dmabuf _ = false

-- `struct v4l2_plane`; `m` is the union of offset, address and descriptor, each as its pattern of bits.
pub record Plane : Type 0 where
  pub m : ℕ
  pub length : ℕ

-- `V4L2Buffer_t`; `several` tells which of the two tables `ops` is. `m` and `length` are those of `v4l2`, used with
-- one plane, and `size` is the `length` beside `v4l2`.
pub record CameraBuffer : Type 0 where
  pub kind : BufType
  pub memory : MemoryKind
  pub index : ℕ
  pub bytesused : ℕ
  pub m : ℕ
  pub length : ℕ
  pub planes : List Plane
  pub map : List (Option ℕ)
  pub size : ℕ
  pub several : Bool

-- A zeroed plane.
abbrev pub no_plane : Plane
no_plane = record { m = 0; length = 0 }

abbrev pub plane_at : CameraBuffer → ℕ → Plane
plane_at b plane = get_or b.planes plane no_plane

-- `getdmafd_splane` and `getdmafd_mplane`
unfoldable pub getdmafd : CameraBuffer → ℕ → ℕ
getdmafd b plane = if b.several then (plane_at b plane).m else b.m

-- `getmem_splane` and `getmem_mplane`
unfoldable pub getmem : CameraBuffer → ℕ → Option ℕ
getmem b plane = get_or b.map (if b.several then plane else 0) none

-- `getsize_splane` and `getsize_mplane`
unfoldable pub getsize : CameraBuffer → ℕ → ℕ
getsize b plane = if b.several then (plane_at b plane).length else b.length

-- `setdma_splane` and `setdma_mplane`, and `setmem_splane` and `setmem_mplane`, which write another member of the
-- same union; a length is kept with 32 bits.
unfoldable pub set_plane : CameraBuffer → ℕ → ℕ → ℕ → CameraBuffer
set_plane b plane m size =
    if b.several
    then record b {
      planes = set b.planes plane (record { m = m; length = size % 2 ^ 32 });
      size = b.size + size;
    }
    else record b { m = m; length = size % 2 ^ 32; size = size }

-- `mmap_splane` and `mmap_mplane`, where the call of the kernel gives `address`.
unfoldable pub map_plane : CameraBuffer → ℕ → Option ℕ → CameraBuffer
map_plane b plane address =
    if b.several
    then record b { map = set b.map plane address }
    else record b { size = b.length; map = set b.map 0 address }

-- `VIDEO_MAX_PLANES`
abbrev pub max_planes : ℕ
max_planes = 8

-- A buffer of `createbuffers_splane` or `createbuffers_mplane`.
unfoldable pub new_buffer : BufType → Bool → ℕ → MemoryKind → ℕ → CameraBuffer
new_buffer kind several nplanes memory index = record {
  kind = kind;
  memory = memory;
  index = index;
  bytesused = 0;
  m = 0;
  length = if several then nplanes else 0;
  planes = replicate max_planes no_plane;
  map = replicate max_planes none;
  size = 0;
  several = several;
}

unfoldable pub buffers_from : BufType → Bool → ℕ → MemoryKind → ℕ → ℕ → List CameraBuffer
unfolding new_buffer
buffers_from kind several nplanes memory index zero = []
buffers_from kind several nplanes memory index (suc n) =
    new_buffer kind several nplanes memory index
    ∷ buffers_from kind several nplanes memory (index + 1) n

-- `createbuffers_splane` and `createbuffers_mplane`
unfoldable pub createbuffers : BufType → Bool → ℕ → MemoryKind → ℕ → List CameraBuffer
unfolding buffers_from
createbuffers kind several nplanes memory number = buffers_from kind several nplanes memory 0 number
