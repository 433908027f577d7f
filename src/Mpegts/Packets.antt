-- ===== src/Mpegts/Packets.antt =====
-- The table packets that src/smpegts.c starts from; the bytes 0xff at their ends are written as a count.
use fastvideo.Prelude.{ℕ, List, ◌∷◌, replicate}

-- `MPEG_TS_LENGTH`, which `dev->packetlen` holds from `mpegts_create` on.
abbrev pub packetlen : ℕ
packetlen = 188

unfoldable pub default_pat : List ℕ
default_pat =
    b'G'
    ∷ 0x40
    ∷ 0x00
    ∷ 0x10
    ∷ 0x00
    ∷ 0x00
    ∷ 0xb0
    ∷ 0x0d
    ∷ 0x00
    ∷ 0x01
    ∷ 0xc1
    ∷ 0x00
    ∷ 0x00
    ∷ 0x00
    ∷ 0x01
    ∷ 0xe0
    ∷ 0x40
    ∷ 0xaa
    ∷ 0xaa
    ∷ 0xaa
    ∷ 0xaa
    ∷ replicate 167 0xff

unfoldable pub default_pmt : List ℕ
default_pmt =
    b'G'
    ∷ 0x40
    ∷ 0x41
    ∷ 0x10
    ∷ 0x00
    ∷ 0x02
    ∷ 0xb0
    ∷ 0x12
    ∷ 0x00
    ∷ 0x01
    ∷ 0xc1
    ∷ 0x00
    ∷ 0x00
    ∷ 0xe0
    ∷ 0x42
    ∷ 0xf0
    ∷ 0x00
    ∷ 0x03
    ∷ 0xe0
    ∷ 0x42
    ∷ 0xf0
    ∷ 0x00
    ∷ 0xaa
    ∷ 0xaa
    ∷ 0xaa
    ∷ 0xaa
    ∷ replicate 162 0xff

unfoldable pub default_sdt : List ℕ
default_sdt =
    b'G'
    ∷ 0x40
    ∷ 0x11
    ∷ 0x10
    ∷ 0x00
    ∷ 0x42
    ∷ 0xf0
    ∷ 0x28
    ∷ 0x00
    ∷ 0x01
    ∷ 0xc1
    ∷ 0x00
    ∷ 0x00
    ∷ 0x00
    ∷ 0x01
    ∷ 0xff
    ∷ 0x00
    ∷ 0x01
    ∷ 0xfc
    ∷ 0x80
    ∷ 0x16
    ∷ 0x48
    ∷ 0x14
    ∷ 0x0a
    ∷ 0x09
    ∷ b'F'
    ∷ b'a'
    ∷ b's'
    ∷ b't'
    ∷ b'V'
    ∷ b'i'
    ∷ b'd'
    ∷ b'e'
    ∷ b'o'
    ∷ 0x09
    ∷ 0x00
    ∷ 0x00
    ∷ 0x00
    ∷ 0x00
    ∷ 0x00
    ∷ 0x00
    ∷ 0x00
    ∷ 0x00
    ∷ 0x00
    ∷ 0xaa
    ∷ 0xaa
    ∷ 0xaa
    ∷ 0xaa
    ∷ replicate 140 0xff

unfoldable pub nullpacket : List ℕ
nullpacket = b'G' ∷ 0x1f ∷ 0xff ∷ 0x10 ∷ replicate 184 0xff
