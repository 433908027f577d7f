-- ===== src/Mpegts/Push.antt =====
-- The loop of `_client_pushdata` of src/smpegts.c that cuts a frame into packets: one function for
-- each send of the loop's body, and the loop.
pub mod Round
pub mod Packet
pub mod Written
pub mod Rounds
pub mod Stream
pub mod Loop
use fastvideo.Buffers.{eagain}
use fastvideo.Prelude.{
  ◌*◌, ℕ, ◌%◌, zero, ◌^◌, suc, ◌-◌, bit_and, ◌∷◌, bit_or, ◌+◌, Bool, ◌/◌, not, ◌&&◌, List, ◌==◌, [],
  ◌++◌, Option, if◌then◌else◌, none, some, ltb, leb, length, take, drop, replicate,
}
use fastvideo.Prelude.Int.{ℤ, pos, pos_part, ◌-ℤ◌, ltb_ℤ, add32}
use fastvideo.Mpegts.{Header, header_bytes}
use fastvideo.Mpegts.Packets.{packetlen}
use fastvideo.Mpegts.Transport.{Proto, Sent, proto_more, proto_started}

-- `PESHeader_t`: the indicator of the time stamps, and the bytes of `opt`.
pub record PesHeader : Type 0 where
  pub ptsi : ℕ
  pub pts : List ℕ
  pub dts : List ℕ

-- `PES_HEADER_LENGTH` bytes: sync, stream, length, two bytes of flags, `hlen`, `opt`.
abbrev pub pes_bytes : PesHeader → List ℕ
pes_bytes h =
    0x00 ∷ 0x00 ∷ 0x01 ∷ 0xe0 ∷ 0x00 ∷ 0x00 ∷ 0x80 ∷ (2 ^ 6 * h.ptsi) ∷ 10 ∷ (h.pts ++ h.dts)

abbrev pub pes_header_length : ℕ
pes_header_length = 19

-- What the loop keeps: the transport's context, `errno`, `ret`, `mtu`, the bytes of `buffer` still
-- to send (`length` of them), and the fields and locals that it writes.
pub record Push (Ctx : Type 0) : Type 0 where
  pub ctx : Ctx
  pub errno : ℕ
  pub ret : ℤ
  pub mtu : ℤ
  pub rest : List ℕ
  pub header : Header
  pub pes : PesHeader
  pub dev_pcr : ℕ
  pub pcr : ℕ
  pub pts : ℕ

-- What one round of the loop keeps besides: `buflength`.
pub record Tx (Ctx : Type 0) : Type 0 where
  pub push : Push Ctx
  pub buflength : ℕ

-- `size_t` minus `ssize_t`.
abbrev pub sub_size : ℕ → ℤ → ℕ
sub_size n r = (n + 2 ^ 64 - pos_part r) % 2 ^ 64

-- Five bytes of a time stamp of a PES header, behind the four bits of `nibble`.
abbrev pub stamp_bytes : ℕ → ℕ → List ℕ
stamp_bytes nibble t =
    bit_or (bit_or (nibble * 2 ^ 4) (bit_and (t / 2 ^ 30) 0x07 * 2)) 0x1 % 2 ^ 8
    ∷ bit_and (t / 2 ^ 22) 0xff
    ∷ (bit_or (bit_and (t / 2 ^ 15) 0x7f * 2) 0x1)
    ∷ bit_and (t / 2 ^ 7) 0xff
    ∷ (bit_or (bit_and t 0x7f * 2) 0x1)
    ∷ []

-- The block under `PES_PTSDTS_ENABLE`: `nibble` goes through both tests.
unfoldable pub stamp_pes : PesHeader → ℕ → ℕ → PesHeader
stamp_pes h dev_pcr pcr =
    let decode : Bool = not (bit_and h.ptsi 0x02 == 0) in
    let present : Bool = not (bit_and h.ptsi 0x01 == 0) in
    let nibble : ℕ = (if decode then bit_or 0x00 0x01 else 0x00) in
    record {
      ptsi = h.ptsi;
      pts = if present then stamp_bytes (bit_or nibble 0x10) pcr else h.pts;
      dts = if decode then stamp_bytes nibble dev_pcr else h.dts;
    }

-- The bytes of `adaptfield` behind its length.
unfoldable pub adapt_tail : ℕ → ℕ → ℕ → List ℕ
adapt_tail randomaccess dev_pcr pcr =
    if pcr == 0
    then 0x00 ∷ []
    else bit_or (bit_or 0x10 randomaccess) (if ltb pcr dev_pcr then 0x80 else 0x00)
      ∷ bit_and (pcr / 2 ^ 25) 0xff
      ∷ bit_and (pcr / 2 ^ 17) 0xff
      ∷ bit_and (pcr / 2 ^ 9) 0xff
      ∷ bit_and (pcr / 2) 0xff
      ∷ bit_or (bit_and pcr 0x01 * 2 ^ 7) 0x7e
      ∷ 0x00
      ∷ []

-- `paddinglength` at the head of the round.
unfoldable pub first_padding : Header → ℕ → ℕ
first_padding h len =
    let reserved : ℕ = 4 + (if h.pusi == 0 then 0 else pes_header_length) in
    if ltb len (packetlen - reserved) then packetlen - reserved - len else 0

-- `flags` and `lastflags`.
abbrev pub flags_of : {Ctx : Type 0} → Push Ctx → ℕ
flags_of s = if s.header.pusi == 0 then proto_more else proto_more + proto_started

abbrev pub lastflags_of : {Ctx : Type 0} → Push Ctx → ℕ
lastflags_of s = if ltb_ℤ s.mtu (pos (2 * packetlen)) then 0 else flags_of s

-- The header as it is sent: a payload too short for the packet asks for an adaptation field.
abbrev pub padded_header : {Ctx : Type 0} → Push Ctx → Header
padded_header s =
    if ltb 0 (first_padding s.header (length s.rest))
    then record s.header { afi = bit_or s.header.afi 0x2 }
    else s.header

module _ (p : Proto) where
  open p use {Ctx, send, mtu as proto_mtu}

  unfoldable pub transmit : Tx Ctx → List ℕ → ℕ → Tx Ctx
  transmit tx bytes flags =
      let sent : Sent Ctx = send tx.push.ctx bytes flags in
      record tx { push = record tx.push { ctx = sent.ctx; errno = sent.errno; ret = sent.ret } }

  -- `buflength -= ret; mtu -= ret;`
  unfoldable pub account : Tx Ctx → Tx Ctx
  unfolding ◌-ℤ◌
  account tx = record {
    push = record tx.push { mtu = tx.push.mtu -ℤ tx.push.ret };
    buflength = sub_size tx.buflength tx.push.ret;
  }

  abbrev pub sent_some : Tx Ctx → Bool
  sent_some tx = ltb_ℤ (pos 0) tx.push.ret

  -- The stuffing behind the adaptation field, out of `padding`, which holds 183 bytes.
  unfoldable pub send_padding : ℕ → ℕ → Tx Ctx → Tx Ctx
  unfolding transmit account
  send_padding flags padding tx =
      if sent_some tx && ltb 0 padding
      then transmit (account tx)
          (replicate (if ltb (packetlen - 4 - 1) padding then packetlen - 4 - 1 else padding) 0xff)
          flags
      else tx

  unfoldable pub send_adaptation : ℕ → ℕ → ℕ → Tx Ctx → Tx Ctx
  unfolding transmit account adapt_tail send_padding
  send_adaptation flags randomaccess padding tx =
      let tail : List ℕ = adapt_tail randomaccess tx.push.dev_pcr tx.push.pcr in
      let left : ℕ = padding - (1 + length tail) in
      if sent_some tx && not (bit_and tx.push.header.afi 0x02 == 0)
      then send_padding flags left (transmit (account tx) ((length tail + left) ∷ tail) flags)
      else tx

  unfoldable pub send_pes : ℕ → Tx Ctx → Tx Ctx
  unfolding transmit account stamp_pes
  send_pes flags tx =
      let pcr : ℕ = add32 tx.push.pcr 90 in
      let pes : PesHeader = stamp_pes tx.push.pes tx.push.dev_pcr pcr in
      let tx1 : Tx Ctx = account tx in
      if sent_some tx && not (tx.push.header.pusi == 0)
      then transmit (record tx1 { push = record tx1.push { pcr = pcr; pts = pcr; pes = pes } })
          (pes_bytes pes) flags
      else tx

  unfoldable pub send_payload : ℕ → Tx Ctx → Tx Ctx
  unfolding transmit account
  send_payload lastflags tx =
      if sent_some tx
      then transmit (account tx) (take (account tx).buflength tx.push.rest) lastflags
      else tx

  -- The end of the round, on a send that took something and on one that did not.
  unfoldable pub settle : ℕ → Tx Ctx → Push Ctx
  unfolding account
  settle lastflags tx =
      let s : Push Ctx = (account tx).push in
      if sent_some tx
      then record s {
        mtu = if lastflags == 0 then pos (proto_mtu s.ctx) else s.mtu;
        rest = if ltb (pos_part s.ret) (length s.rest) then drop (pos_part s.ret) s.rest else [];
        header = record s.header { pusi = 0; afi = 1; cc = (s.header.cc + 1) % 2 ^ 4 };
        dev_pcr = if ltb 0 s.pcr then s.pcr else s.dev_pcr;
        pcr = 0;
      }
      else if tx.push.errno == eagain
      then record tx.push { rest = [] }
      else tx.push

  unfoldable pub packet_round : ℕ → Push Ctx → Push Ctx
  unfolding first_padding transmit send_adaptation send_pes send_payload settle
  packet_round randomaccess s =
      let padding : ℕ = first_padding s.header (length s.rest) in
      let h : Header = padded_header s in
      let tx1 : Tx Ctx =
        transmit (record { push = record s { header = h }; buflength = packetlen }) (header_bytes h)
          (flags_of s) in
      let tx2 : Tx Ctx = send_adaptation proto_more randomaccess padding tx1 in
      let tx3 : Tx Ctx = send_pes proto_more tx2 in
      settle (lastflags_of s) (send_payload (lastflags_of s) tx3)

  -- `while (length > 0 && ret > 0)`
  unfoldable pub push_loop : ℕ → ℕ → Push Ctx → Option (Push Ctx)
  unfolding packet_round
  push_loop zero randomaccess s = none
  push_loop (suc fuel) randomaccess s =
      let next : Option (Push Ctx) = push_loop fuel randomaccess (packet_round randomaccess s) in
      if ltb 0 (length s.rest) && ltb_ℤ (pos 0) s.ret then next else some s
