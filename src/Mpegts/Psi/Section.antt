-- ===== src/Mpegts/Psi/Section.antt =====
-- What a receiver asks of the table packets that src/smpegts.c builds.
use fastvideo.Prelude.{
  ◌≡◌, ℕ, ◌-◌, bit_and, ◌+◌, refl, ◌*◌, Bool, ◌^◌, true, ◌==◌, false, List, length, get_or, take,
  drop, replicate,
}
use fastvideo.Crc.{crc32}
use fastvideo.Crc.Residue.{crc32-append_be32}
use fastvideo.Mpegts.{Config}
use fastvideo.Mpegts.Packets.{packetlen}
use fastvideo.Mpegts.Psi.{
  start, setup_pat, setup_pmt, setup_sdt, pmt_packet, sdt_packet, fourcc_h264,
}

-- The twelve bits of the section's length field, and the whole section that they measure.
abbrev pub section_length : List ℕ → ℕ
section_length raw = bit_and (get_or raw 6 0) 0x0f * 2 ^ 8 + get_or raw 7 0

abbrev pub section : List ℕ → List ℕ
section raw = take (3 + section_length raw) (drop start raw)

-- One packet of 188 bytes that starts with the sync byte, begins a section (unit start, pointer 0),
-- carries a payload only, whose section checks, with stuffing bytes behind the section.
pub record IsTable (raw : List ℕ) : Type 0 where
  pub size : length raw ≡ packetlen
  pub sync : get_or raw 0 0 ≡ 0x47
  pub unit_start : bit_and (get_or raw 1 0) 0x40 ≡ 0x40
  pub payload_only : bit_and (get_or raw 3 0) 0x30 ≡ 0x10
  pub pointer : get_or raw 4 0 ≡ 0
  pub checked : crc32 (section raw) ≡ 0
  pub stuffed :
      drop (start + 3 + section_length raw) raw
      ≡ replicate (packetlen - (start + 3 + section_length raw)) 0xff

-- For every configuration, the PAT packet is one packet that begins a section whose checksum is right.
pub setup_pat-IsTable : (config : Config) → IsTable (setup_pat config)
unfolding setup_pat
setup_pat-IsTable config = record {
  size = refl;
  sync = refl;
  unit_start = refl;
  payload_only = refl;
  pointer = refl;
  checked = crc32-append_be32 (take 12 (drop start (setup_pat config)));
  stuffed = refl;
}

pmt_packet-IsTable : (is_h264 meta : Bool) (pid : ℕ) → IsTable (pmt_packet is_h264 meta pid)
unfolding pmt_packet
pmt_packet-IsTable false false pid = record {
  size = refl;
  sync = refl;
  unit_start = refl;
  payload_only = refl;
  pointer = refl;
  checked = crc32-append_be32 (take 17 (drop start (pmt_packet false false pid)));
  stuffed = refl;
}
pmt_packet-IsTable true false pid = record {
  size = refl;
  sync = refl;
  unit_start = refl;
  payload_only = refl;
  pointer = refl;
  checked = crc32-append_be32 (take 17 (drop start (pmt_packet true false pid)));
  stuffed = refl;
}
pmt_packet-IsTable false true pid = record {
  size = refl;
  sync = refl;
  unit_start = refl;
  payload_only = refl;
  pointer = refl;
  checked = crc32-append_be32 (take 54 (drop start (pmt_packet false true pid)));
  stuffed = refl;
}
pmt_packet-IsTable true true pid = record {
  size = refl;
  sync = refl;
  unit_start = refl;
  payload_only = refl;
  pointer = refl;
  checked = crc32-append_be32 (take 54 (drop start (pmt_packet true true pid)));
  stuffed = refl;
}

-- For every configuration, with the metadata stream and without, the PMT packet is one packet that
-- begins a section whose length and checksum are right, with stuffing behind it.
pub setup_pmt-IsTable : (config : Config) → IsTable (setup_pmt config)
unfolding setup_pmt
setup_pmt-IsTable config = pmt_packet-IsTable (config.fourcc == fourcc_h264) config.meta config.pid

sdt_packet-IsTable : (is_h264 : Bool) (name : ℕ → ℕ) → IsTable (sdt_packet is_h264 name)
unfolding sdt_packet
sdt_packet-IsTable false name = record {
  size = refl;
  sync = refl;
  unit_start = refl;
  payload_only = refl;
  pointer = refl;
  checked = crc32-append_be32 (take 39 (drop start (sdt_packet false name)));
  stuffed = refl;
}
sdt_packet-IsTable true name = record {
  size = refl;
  sync = refl;
  unit_start = refl;
  payload_only = refl;
  pointer = refl;
  checked = crc32-append_be32 (take 39 (drop start (sdt_packet true name)));
  stuffed = refl;
}

-- For every configuration and service name, the SDT packet is one packet that begins a section whose
-- checksum is right.
pub setup_sdt-IsTable : (config : Config) → IsTable (setup_sdt config)
unfolding setup_sdt
setup_sdt-IsTable config = sdt_packet-IsTable (config.fourcc == fourcc_h264) config.name

-- For every configuration and service name, the PAT and the SDT packet are each one packet that begins a section
-- whose checksum is right.
pub tables_checked : (config : Config) → IsTable (setup_pat config) × IsTable (setup_sdt config)
tables_checked config = (setup_pat-IsTable config, setup_sdt-IsTable config)
