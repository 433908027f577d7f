-- ===== src/Mpegts.antt =====
-- The transport stream multiplexer, src/smpegts.c: its configuration, its headers and the
-- transport that it writes to. The child modules hold its operations.
pub mod Packets
pub mod Psi
pub mod Clock
pub mod Transport
pub mod Klv
pub mod Push
pub mod Fill
pub mod Device
use fastvideo.Prelude.{◌^◌, ℕ, ◌+◌, List, ◌*◌, [], ◌∷◌, Bool}
use fastvideo.Prelude.Int.{ℤ}

-- `MPEG_TSConf_t`. `pid` is the pattern of the `int`, `name` the bytes at `parent.name`,
-- however many the code reads.
pub record Config : Type 0 where
  pub fourcc : ℕ
  pub fps : ℕ
  pub pid : ℕ
  pub periodic : ℕ
  pub maxframes : ℕ
  pub meta : Bool
  pub klvkey : ℕ → ℕ
  pub name : ℕ → ℕ

-- `MPEGHeader_t`: bit fields, laid out from the lowest bit.
pub record Header : Type 0 where
  pub sync : ℕ
  pub pid2 : ℕ
  pub prio : ℕ
  pub pusi : ℕ
  pub tei : ℕ
  pub pid : ℕ
  pub cc : ℕ
  pub afi : ℕ
  pub tsi : ℕ

abbrev pub header_bytes : Header → List ℕ
header_bytes h =
    h.sync
    ∷ (h.pid2 + 2 ^ 5 * h.prio + 2 ^ 6 * h.pusi + 2 ^ 7 * h.tei)
    ∷ h.pid
    ∷ (h.cc + 2 ^ 4 * h.afi + 2 ^ 6 * h.tsi)
    ∷ []
