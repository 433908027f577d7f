-- ===== src/Mpegts/Push/Packet.antt =====
-- The packet that one round of the loop of src/smpegts.c writes, in closed form.

use fastvideo.Prelude.{
  ◌+◌, ℕ, ◌<◌, inl, ◌^◌, inr, ◌≤◌, bit_and, ◌⊎◌, bit_or, ◌≡◌, Bool, ◌-◌, false, ◌∷◌, not, ◌++◌,
  List, ◌==◌, [], if◌then◌else◌, arith, length, take, replicate, length-append, length-replicate,
  length-take,
}
use fastvideo.Prelude.Int.{add32}
use fastvideo.Mpegts.{Header, header_bytes}
use fastvideo.Mpegts.Packets.{packetlen}
use fastvideo.Mpegts.Push.{
  Push, PesHeader, pes_bytes, stamp_pes, adapt_tail, first_padding, padded_header,
}
use fastvideo.Mpegts.Push.Round.{adaptation}

-- The bit fields of a header hold what fits them.
pub record IsHeader (h : Header) : Type 0 where
  pub sync : h.sync ≡ 0x47
  pub pid2 : h.pid2 < 2 ^ 5
  pub prio : h.prio < 2
  pub tei : h.tei < 2
  pub cc : h.cc < 2 ^ 4
  pub tsi : h.tsi < 2 ^ 2

-- What the loop keeps of its headers.
pub record IsReady {Ctx : Type 0} (s : Push Ctx) : Type 0 where
  pub fields : IsHeader s.header
  pub unit_start : s.header.pusi < 2
  pub control : (s.header.afi ≡ 1) ⊎ (s.header.afi ≡ 3)
  pub stamped : s.pes.ptsi ≡ 3

module _ {Ctx : Type 0} (s : Push Ctx) where
  -- Does the packet have an adaptation field?
  abbrev pub wants : Bool
  wants = not (bit_and (padded_header s).afi 0x02 == 0)

  abbrev pub pes_part : List ℕ
  pes_part =
      if s.header.pusi == 0 then [] else pes_bytes (stamp_pes s.pes s.dev_pcr (add32 s.pcr 90))

module _ {Ctx : Type 0} (randomaccess : ℕ) (s : Push Ctx) where
  abbrev pub field_part : List ℕ
  field_part =
      if wants s
      then adaptation (first_padding s.header (length s.rest))
          (adapt_tail randomaccess s.dev_pcr s.pcr)
      else []

  -- The bytes of the frame that the packet takes.
  abbrev pub share : ℕ
  share = 184 - length field_part - length (pes_part s)

  abbrev pub packet : List ℕ
  packet = header_bytes (padded_header s) ++ (field_part ++ (pes_part s ++ take share s.rest))

pub length-stamp_pes :
    (h : PesHeader) (t u : ℕ) → h.ptsi ≡ 3 → length (pes_bytes (stamp_pes h t u)) ≡ 19
unfolding stamp_pes
length-stamp_pes h t u e = rw e

length-adapt_tail :
    (randomaccess t u : ℕ)
    → (1 ≤ length (adapt_tail randomaccess t u)) × (length (adapt_tail randomaccess t u) ≤ 7)
unfolding adapt_tail
length-adapt_tail randomaccess t u = ground arith

pub length-adaptation :
    (padding : ℕ) (tail : List ℕ)
    → length (adaptation padding tail) ≡ 1 + length tail + (padding - (1 + length tail))
length-adaptation padding tail = omega (
  arith,
  length-append ((length tail + (padding - (1 + length tail))) ∷ tail)
      (replicate (padding - (1 + length tail)) 0xff),
  length-replicate {A = ℕ} (padding - (1 + length tail)) 0xff,
)

set_bit : (a : ℕ) → (a ≡ 1) ⊎ (a ≡ 3) → bit_and (bit_or a 0x2) 0x02 ≡ 2
set_bit a (inl e) = rw e
set_bit a (inr e) = rw e

module _ {Ctx : Type 0} (s : Push Ctx) (ready : IsReady s) where
  -- A round that needs padding sends an adaptation field.
  wants_padding : wants s ≡ false → first_padding s.header (length s.rest) ≡ 0
  wants_padding none = ground (arith, set_bit s.header.afi ready.control)

  pub length-pes_part : length (pes_part s) ≡ (if s.header.pusi == 0 then 0 else 19)
  length-pes_part = ground (arith, length-stamp_pes s.pes s.dev_pcr (add32 s.pcr 90) ready.stamped)

  pub padding_bounds :
      (first_padding s.header (length s.rest) + (if s.header.pusi == 0 then 0 else 19) + 4 ≤ 188)
      × (184
          ≤ first_padding s.header (length s.rest)
            + (if s.header.pusi == 0 then 0 else 19)
            + length s.rest)
      × (0 < length s.rest
          → first_padding s.header (length s.rest) + (if s.header.pusi == 0 then 0 else 19) < 184)
      × (0 < first_padding s.header (length s.rest)
          → first_padding s.header (length s.rest)
              + (if s.header.pusi == 0 then 0 else 19)
              + length s.rest
            ≡ 184)
  unfolding first_padding
  padding_bounds = ground arith

module _ {Ctx : Type 0} (randomaccess : ℕ) (s : Push Ctx) (ready : IsReady s) where
  -- The parts of a packet make up 188 bytes, and it takes some of the frame, no more than is there.
  pub share_bounds :
      0 < length s.rest
      → (0 < share randomaccess s)
        × (share randomaccess s ≤ length s.rest)
        × (length (field_part randomaccess s) + length (pes_part s) + share randomaccess s ≡ 184)
  share_bounds more = ground (
    arith,
    wants_padding s ready,
    length-pes_part s ready,
    padding_bounds s ready,
    length-adaptation (first_padding s.header (length s.rest))
        (adapt_tail randomaccess s.dev_pcr s.pcr),
    length-adapt_tail randomaccess s.dev_pcr s.pcr,
  )

  pub length-packet : 0 < length s.rest → length (packet randomaccess s) ≡ packetlen
  length-packet more = omega (
    arith,
    share_bounds more,
    length-append (field_part randomaccess s) (pes_part s ++ take (share randomaccess s) s.rest),
    length-append (pes_part s) (take (share randomaccess s) s.rest),
    length-take (share randomaccess s) s.rest,
  )
