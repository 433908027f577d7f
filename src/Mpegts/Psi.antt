-- ===== src/Mpegts/Psi.antt =====
-- The tables of the stream: the parts of `mpegts_create` that set up the PAT, PMT and SDT packets,
-- and `_client_klvpmt`, of src/smpegts.c.
pub mod Section
use fastvideo.Prelude.{
  ◌/◌, ℕ, ◌∷◌, bit_and, ◌*◌, bit_or, ◌+◌, List, ◌-◌, [], ◌^◌, Bool, ◌%◌, length, ◌++◌, get_or, ◌==◌,
  set, if◌then◌else◌, take, drop, replicate, blit,
}
use fastvideo.Crc.{crc32, be32}
use fastvideo.Mpegts.{Config}
use fastvideo.Mpegts.Packets.{packetlen, default_pat, default_pmt, default_sdt}

-- `FOURCC_H264`
abbrev pub fourcc_mpts : ℕ
fourcc_mpts = 0x5354_504d

abbrev pub fourcc_h264 : ℕ
fourcc_h264 = 0x3436_3248

-- The offset of the section: behind the header and the pointer.
abbrev pub start : ℕ
start = 5

-- `((raw[6] & 0x0f) << 8) | raw[7]`, less the size of the pointer: the bytes under the checksum.
unfoldable pub psi_len : List ℕ → ℕ
psi_len raw =
    (bit_or (bit_and (get_or raw 6 0) 0x0f * 2 ^ 8) (get_or raw 7 0) + 2 ^ 16 - 1) % 2 ^ 16

-- `crc32 (&raw[start], len)` in network order.
unfoldable pub psi_crc : List ℕ → ℕ → List ℕ
psi_crc raw len = be32 (crc32 (take len (drop start raw)))

unfoldable pub setup_pat : Config → List ℕ
unfolding default_pat psi_len psi_crc
setup_pat config =
    let raw = set default_pat 16 (bit_and config.pid 0xff) in
    blit raw 17 (psi_crc raw (psi_len raw))

-- `klv_metadata_id`
abbrev pub klv_metadata_id : List ℕ
klv_metadata_id =
    0xff ∷ 0xff ∷ b'K' ∷ b'L' ∷ b'V' ∷ b'A' ∷ 0xff ∷ b'K' ∷ b'L' ∷ b'V' ∷ b'A' ∷ 0x00 ∷ []

-- What `_client_klvpmt` writes from the program info length on: the program's descriptor, the first
-- stream moved behind it, the metadata stream.
abbrev pub klv_streams : List ℕ → ℕ → List ℕ
klv_streams es1 pid =
    0xf0
    ∷ (2 + length klv_metadata_id + 3)
    ∷ 0x25
    ∷ (length klv_metadata_id + 3)
    ∷ (klv_metadata_id
        ++ (0x1f
            ∷ 0x00
            ∷ 0x01
            ∷ (es1
                ++ (0x15
                    ∷ bit_or 0xe0 (bit_and (pid / 2 ^ 8) 0x1f)
                    ∷ bit_and pid 0xff
                    ∷ 0xf0
                    ∷ (2 + length klv_metadata_id + 1)
                    ∷ 0x26
                    ∷ (length klv_metadata_id + 1)
                    ∷ (klv_metadata_id ++ (0x0f ∷ []))))))

-- `_client_klvpmt`, at the section's offset `start`.
unfoldable pub klvpmt : List ℕ → ℕ → List ℕ
unfolding psi_crc
klvpmt raw pid =
    let es1 : List ℕ = take 5 (drop (start + 12) raw) in
    let body : List ℕ = klv_streams es1 pid in
    let offset : ℕ = start + 10 + length body in
    let raw1 : List ℕ = blit raw (start + 10) body in
    let pmtlen : ℕ = (offset + 4 - (start + 3)) % 2 ^ 16 in
    let raw2 : List ℕ = set raw1 (start + 1) (bit_or 0xb0 (pmtlen / 2 ^ 8)) in
    let raw3 : List ℕ = set raw2 (start + 2) (bit_and pmtlen 0xff) in
    let raw4 : List ℕ = blit raw3 offset (psi_crc raw3 (offset - start)) in
    blit raw4 (offset + 4) (replicate (packetlen - (offset + 4)) 0xff)

-- The PMT packet, by the two tests that the code makes on the configuration.
unfoldable pub pmt_packet : (is_h264 meta : Bool) (pid : ℕ) → List ℕ
unfolding default_pmt psi_len psi_crc klvpmt
pmt_packet is_h264 meta pid =
    let typed : List ℕ = (if is_h264 then set default_pmt 17 0x1b else default_pmt) in
    let raw1 : List ℕ = set typed 2 (bit_and pid 0xff) in
    let raw2 : List ℕ = blit raw1 8 (0x00 ∷ 0x01 ∷ []) in
    let raw3 : List ℕ = set raw2 14 ((pid + 1) % 2 ^ 8) in
    let raw4 : List ℕ = set raw3 19 ((pid + 1) % 2 ^ 8) in
    let raw5 : List ℕ = blit raw4 22 (psi_crc raw4 (psi_len raw4)) in
    if meta then klvpmt raw5 ((pid + 2) % 2 ^ 32) else raw5

unfoldable pub setup_pmt : Config → List ℕ
unfolding pmt_packet
setup_pmt config = pmt_packet (config.fourcc == fourcc_h264) config.meta config.pid

-- `memcpy (name, config->parent.name, 9)`
abbrev pub nine : (ℕ → ℕ) → List ℕ
nine name = name 0 ∷ name 1 ∷ name 2 ∷ name 3 ∷ name 4 ∷ name 5 ∷ name 6 ∷ name 7 ∷ name 8 ∷ []

unfoldable pub sdt_packet : (is_h264 : Bool) (name : ℕ → ℕ) → List ℕ
unfolding default_sdt psi_len psi_crc
sdt_packet is_h264 name =
    let raw1 : List ℕ = blit default_sdt 35 (nine name) in
    let raw2 : List ℕ = (if is_h264 then set raw1 23 0x1b else raw1) in
    blit raw2 44 (psi_crc raw2 (psi_len raw2))

unfoldable pub setup_sdt : Config → List ℕ
unfolding sdt_packet
setup_sdt config = sdt_packet (config.fourcc == fourcc_h264) config.name
