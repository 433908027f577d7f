-- ===== src/Mpegts/Push/Written.antt =====
-- What one round of the packet loop of src/smpegts.c writes, and what it settles for the next.
use mathlib.Core.Path.{subst, subst₂}
use mathlib.Core.List.{append-nil}
use fastvideo.Prelude.{
  ◌≡◌, ℕ, ◌≤◌, refl, ◌<◌, sym, ◌⊎◌, ap, ◌++◌, inl, ◌==◌, inr, if◌then◌else◌, bit_and, true, false,
  not, List, [], arith, length, take, Bool-cases,
}
use fastvideo.Prelude.Int.{pos, add32}
use fastvideo.Mpegts.{header_bytes}
use fastvideo.Mpegts.Packets.{packetlen}
use fastvideo.Mpegts.Transport.{Proto, IsReliable, proto_more}
use fastvideo.Mpegts.Push.{
  Push, Tx, pes_bytes, stamp_pes, adapt_tail, first_padding, transmit, sent_some, send_adaptation,
  send_pes, send_payload, padded_header, flags_of,
}
use fastvideo.Mpegts.Push.Round.{room, adaptation, Adds, send_adaptation-Adds, send_pes-Adds}
use fastvideo.Mpegts.Push.Packet.{
  IsReady, wants, field_part, pes_part, share_bounds, padding_bounds, length-stamp_pes,
}

module _ (p : Proto) where
  open p use {Ctx}

  -- The adaptation field leaves the time stamps alone.
  pub send_adaptation-stamps :
      (flags randomaccess padding : ℕ) (tx : Tx Ctx)
      → let s = (send_adaptation p flags randomaccess padding tx).push in
        (s.pes ≡ tx.push.pes) × (s.dev_pcr ≡ tx.push.dev_pcr) × (s.pcr ≡ tx.push.pcr)
  unfolding send_adaptation
  send_adaptation-stamps flags randomaccess padding tx = ground arith

  -- The send of the header, the first of a round.
  abbrev pub first_send : Push Ctx → Tx Ctx
  first_send s =
      transmit p (record { push = record s { header = padded_header s }; buflength = packetlen })
        (header_bytes (padded_header s)) (flags_of s)

module _ (p : Proto) (r : IsReliable p) where
  open p use {Ctx}

  Adds-nil : (tx : Tx Ctx) → sent_some p tx ≡ true → Adds p r tx tx []
  Adds-nil tx going = record {
    took = sym (append-nil (r.taken tx.push.ctx));
    leaves = omega arith;
    going = going;
    same_header = refl;
    same_rest = refl;
  }

  pub first_send-facts :
      (s : Push Ctx)
      → let tx = first_send p s in
        (r.taken tx.push.ctx ≡ r.taken s.ctx ++ header_bytes (padded_header s))
        × (room tx ≡ 184)
        × (sent_some p tx ≡ true)
        × (tx.push.header ≡ padded_header s)
        × (tx.push.rest ≡ s.rest)
        × (tx.push.pes ≡ s.pes)
        × (tx.push.dev_pcr ≡ s.dev_pcr)
        × (tx.push.pcr ≡ s.pcr)
  unfolding transmit
  first_send-facts s = (
    (r.all_taken s.ctx (header_bytes (padded_header s)) (flags_of s)).1,
    rw (r.all_taken s.ctx (header_bytes (padded_header s)) (flags_of s)).0,
    rw (r.all_taken s.ctx (header_bytes (padded_header s)) (flags_of s)).0,
    refl,
    refl,
    refl,
    refl,
    refl,
  )

  skip_adaptation :
      (flags randomaccess padding : ℕ) (tx : Tx Ctx)
      → not (bit_and tx.push.header.afi 0x02 == 0) ≡ false
      → send_adaptation p flags randomaccess padding tx ≡ tx
  unfolding send_adaptation
  skip_adaptation flags randomaccess padding tx unwanted = ground arith

  pub field_stage :
      (randomaccess : ℕ) (s : Push Ctx)
      → IsReady s
      → 0 < length s.rest
      → Adds p r
          (first_send p s)
          (send_adaptation p proto_more randomaccess
            (first_padding s.header (length s.rest))
            (first_send p s))
          (field_part randomaccess s)
  unfolding transmit
  field_stage randomaccess s ready more = elim (Bool-cases (wants s)) [
    | inl wanted ↦
        subst
          (Adds p r (first_send p s)
            (send_adaptation p proto_more randomaccess padding (first_send p s)))
          (sym (ap (λ b. if b then field else []) wanted))
          (send_adaptation-Adds p r proto_more randomaccess padding (first_send p s) sending.2
            wanted (omega (arith, (padding_bounds s ready).2 more))
            (omega (
              arith,
              sending.1,
              share_bounds randomaccess s ready more,
              ap (λ b. length (if b then field else [])) wanted,
            )))
    | inr unwanted ↦
        subst₂ (Adds p r (first_send p s))
          (sym (skip_adaptation proto_more randomaccess padding (first_send p s) unwanted))
          (sym (ap (λ b. if b then field else []) unwanted)) (Adds-nil (first_send p s) sending.2)
  ]
    where
      padding : ℕ
      padding = first_padding s.header (length s.rest)

      field : List ℕ
      field = adaptation padding (adapt_tail randomaccess s.dev_pcr s.pcr)

      sending :
          (r.taken (first_send p s).push.ctx ≡ r.taken s.ctx ++ header_bytes (padded_header s))
          × (room (first_send p s) ≡ 184)
          × (sent_some p (first_send p s) ≡ true)
      sending = ((first_send-facts s).0, (first_send-facts s).1, (first_send-facts s).2)

  pub own_pes_stage :
      (tx : Tx Ctx)
      → sent_some p tx ≡ true
      → tx.push.pes.ptsi ≡ 3
      → (tx.push.header.pusi == 0) ≡ true ⊎ ((tx.push.header.pusi == 0) ≡ false) × (19 ≤ room tx)
      → Adds p r tx (send_pes p proto_more tx) (pes_part tx.push)
  unfolding send_pes
  own_pes_stage tx going stamped (inl later) =
      subst₂ (Adds p r tx) (ground arith) (ground arith) (Adds-nil tx going)
  own_pes_stage tx going stamped (inr (first, fits)) =
      subst (Adds p r tx (send_pes p proto_more tx))
        (sym (
          ap
            (λ b.
              if b
              then []
              else pes_bytes (stamp_pes tx.push.pes tx.push.dev_pcr (add32 tx.push.pcr 90)))
            first))
        (send_pes-Adds p r proto_more tx going (ap not first) (
          omega
            (arith, length-stamp_pes tx.push.pes tx.push.dev_pcr (add32 tx.push.pcr 90) stamped)))

  pub payload-ret :
      (lastflags : ℕ) (tx : Tx Ctx)
      → sent_some p tx ≡ true
      → (send_payload p lastflags tx).push.ret ≡ pos (length (take (room tx) tx.push.rest))
  unfolding send_payload
  payload-ret lastflags tx going =
      rw going ((r.all_taken tx.push.ctx (take (room tx) tx.push.rest) lastflags).0)

  pub keeps-ptsi :
      (flags : ℕ) (tx : Tx Ctx)
      → ((send_pes p flags tx).push.pes.ptsi ≡ tx.push.pes.ptsi)
        × ((send_payload p flags tx).push.pes.ptsi ≡ tx.push.pes.ptsi)
  unfolding send_pes send_payload
  keeps-ptsi flags tx = ground arith
