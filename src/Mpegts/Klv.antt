-- ===== src/Mpegts/Klv.antt =====
-- The metadata packet of a frame, `_client_pushklv` of src/smpegts.c.
pub mod Parse
use fastvideo.Prelude.{
  ◌+◌, ℕ, ◌%◌, bit_and, ◌^◌, bit_or, ◌∷◌, List, ◌/◌, [], ◌-◌, ltb, ◌*◌, length, ◌==◌, set, ◌++◌,
  replicate, if◌then◌else◌,
}
use fastvideo.Prelude.Int.{ℤ, pos}
use fastvideo.Prelude.Bytes.{be_bytes}
use fastvideo.Mpegts.Packets.{packetlen}

-- `klvkey`, sixteen bytes.
abbrev pub sixteen : (ℕ → ℕ) → List ℕ
sixteen key =
    key 0
    ∷ key 1
    ∷ key 2
    ∷ key 3
    ∷ key 4
    ∷ key 5
    ∷ key 6
    ∷ key 7
    ∷ key 8
    ∷ key 9
    ∷ key 10
    ∷ key 11
    ∷ key 12
    ∷ key 13
    ∷ key 14
    ∷ key 15
    ∷ []

-- `pes` up to the loops' ends, with 0 where the lengths go.
abbrev pub klv_unsized : ℕ → ℕ → (ℕ → ℕ) → ℕ → ℕ → List ℕ
klv_unsized pts seq key flags timestamp =
    0x00
    ∷ 0x00
    ∷ 0x01
    ∷ 0xfc
    ∷ 0
    ∷ 0
    ∷ 0x84
    ∷ 0x80
    ∷ 5
    ∷ bit_or 0x21 (bit_and (pts / 2 ^ 29) 0x0e)
    ∷ bit_and (pts / 2 ^ 22) 0xff
    ∷ bit_or (bit_and (pts / 2 ^ 14) 0xfe) 0x01
    ∷ bit_and (pts / 2 ^ 7) 0xff
    ∷ bit_or (bit_and (pts * 2 % 2 ^ 32) 0xfe) 0x01
    ∷ 0x00
    ∷ seq
    ∷ 0xdf
    ∷ 0
    ∷ 0
    ∷ (sixteen key
        ++ ((2 + 4 + 2 + 8) ∷ 1 ∷ 4 ∷ (be_bytes 4 flags ++ (2 ∷ 8 ∷ be_bytes 8 timestamp))))

-- `pes` whole: the length of the cell, then that of the packet.
unfoldable pub klv_pes : ℕ → ℕ → (ℕ → ℕ) → ℕ → ℕ → List ℕ
klv_pes pts seq key flags timestamp =
    let pes : List ℕ = klv_unsized pts seq key flags timestamp in
    let cell : ℕ = 17 in
    let size : ℕ = length pes in
    let pes1 : List ℕ = set pes cell ((size - cell - 2) / 2 ^ 8) in
    let pes2 : List ℕ = set pes1 (cell + 1) (bit_and (size - cell - 2) 0xff) in
    let pes3 : List ℕ = set pes2 4 ((size - 6) / 2 ^ 8) in set pes3 5 (bit_and (size - 6) 0xff)

-- `packet`: `pid` is `config->pid + 2`, and the adaptation field fills what the PES leaves.
unfoldable pub klv_packet : ℕ → ℕ → List ℕ → List ℕ
klv_packet pid klvcc pes =
    let afl : ℕ = packetlen - 5 - length pes in
    b'G'
    ∷ bit_or 0x40 (bit_and (pid / 2 ^ 8) 0x1f)
    ∷ bit_and pid 0xff
    ∷ bit_or 0x30 (bit_and klvcc 0x0f)
    ∷ afl
    ∷ ((if ltb 0 afl then 0x00 ∷ replicate (afl - 1) 0xff else []) ++ pes)
