-- ===== src/Mpegts/Push/Round.antt =====
-- One round of the packet loop of src/smpegts.c, over a transport that takes all that it is given:
-- what each send of the round adds to the packet, and what is left of the packet behind it.
use mathlib.Core.List.{append_assoc, append-nil}
use fastvideo.Prelude.{
  ◌∙◌, ℕ, ◌∷◌, zero, ◌-◌, suc, ◌≡◌, refl, ◌+◌, sym, ◌<◌, ap, ◌≤◌, bit_and, ◌==◌, true, ◌++◌, not,
  List, arith, ltb-false, lt→ltb, length, take, replicate, length-append, length-replicate,
  length-take,
}
use fastvideo.Prelude.Int.{add32}
use fastvideo.Mpegts.Transport.{Proto, IsReliable}
use fastvideo.Mpegts.Push.{
  Tx, pes_bytes, sub_size, stamp_pes, adapt_tail, transmit, account, sent_some, send_padding,
  send_adaptation, send_pes, send_payload,
}

-- The bytes of the packet that are still to come behind the last send.
abbrev pub room : {Ctx : Type 0} → Tx Ctx → ℕ
room tx = sub_size tx.buflength tx.push.ret

-- The whole adaptation field: its length, its flags and clock, its stuffing.
abbrev pub adaptation : ℕ → List ℕ → List ℕ
adaptation padding tail =
    ((length tail + (padding - (1 + length tail))) ∷ tail)
    ++ replicate (padding - (1 + length tail)) 0xff

module _ (p : Proto) (r : IsReliable p) where
  open p use {Ctx}

  -- From `tx` to `tx'` the transport took `bytes`, a part of what was left of the packet.
  pub record Adds (tx tx' : Tx Ctx) (bytes : List ℕ) : Type 0 where
    pub took : r.taken tx'.push.ctx ≡ r.taken tx.push.ctx ++ bytes
    pub leaves : room tx' + length bytes ≡ room tx
    pub going : sent_some p tx' ≡ true
    pub same_header : tx'.push.header ≡ tx.push.header
    pub same_rest : tx'.push.rest ≡ tx.push.rest

  transmit-Adds :
      (tx : Tx Ctx) (bytes : List ℕ) (flags : ℕ)
      → 0 < length bytes
      → length bytes ≤ room tx
      → Adds tx (transmit p (account p tx) bytes flags) bytes
  unfolding transmit account
  transmit-Adds tx bytes flags some_bytes fits = record {
    took = (r.all_taken tx.push.ctx bytes flags).1;
    leaves = rw (r.all_taken tx.push.ctx bytes flags).0 (omega arith);
    going = rw (r.all_taken tx.push.ctx bytes flags).0 (ground arith);
    same_header = refl;
    same_rest = refl;
  }

  pub Adds-append :
      (tx tx' tx'' : Tx Ctx) (bytes more : List ℕ)
      → Adds tx tx' bytes
      → Adds tx' tx'' more
      → Adds tx tx'' (bytes ++ more)
  Adds-append tx tx' tx'' bytes more a b = record {
    took = b.took ∙ ap (λ t. t ++ more) a.took ∙ append_assoc (r.taken tx.push.ctx) bytes more;
    leaves = omega (arith, length-append bytes more, a.leaves, b.leaves);
    going = b.going;
    same_header = b.same_header ∙ a.same_header;
    same_rest = b.same_rest ∙ a.same_rest;
  }

  -- The stuffing, if there is any.
  send_padding-Adds :
      (flags left : ℕ) (tx : Tx Ctx)
      → sent_some p tx ≡ true
      → left ≤ 183
      → left ≤ room tx
      → Adds tx (send_padding p flags left tx) (replicate left 0xff)
  unfolding send_padding
  send_padding-Adds flags zero tx going small fits = record {
    took = rw going (sym (append-nil (r.taken tx.push.ctx)));
    leaves = rw going (omega arith);
    going = rw going going;
    same_header = rw going;
    same_rest = rw going;
  }
  send_padding-Adds flags (suc n) tx going small fits =
      rw (going, ltb-false 183 (suc n) small, lt→ltb 0 (suc n) (omega arith))
        (transmit-Adds tx (replicate (suc n) 0xff) flags (omega arith)
          (omega (arith, length-replicate {A = ℕ} (suc n) 0xff)))

  pub send_adaptation-Adds :
      (flags randomaccess padding : ℕ) (tx : Tx Ctx)
      → sent_some p tx ≡ true
      → not (bit_and tx.push.header.afi 0x02 == 0) ≡ true
      → padding ≤ 183
      → length (adaptation padding (adapt_tail randomaccess tx.push.dev_pcr tx.push.pcr)) ≤ room tx
      → Adds tx
          (send_adaptation p flags randomaccess padding tx)
          (adaptation padding (adapt_tail randomaccess tx.push.dev_pcr tx.push.pcr))
  unfolding send_adaptation
  send_adaptation-Adds flags randomaccess padding tx going wanted small fits =
      rw (going, wanted)
        (Adds-append tx first (send_padding p flags left first) head (replicate left 0xff) added (
          send_padding-Adds flags left first added.going (omega arith) (
            omega (
              arith,
              added.leaves,
              length-append head (replicate left 0xff),
              length-replicate {A = ℕ} left 0xff,
            ))))
    where
      tail : List ℕ
      tail = adapt_tail randomaccess tx.push.dev_pcr tx.push.pcr

      left : ℕ
      left = padding - (1 + length tail)

      head : List ℕ
      head = (length tail + left) ∷ tail

      first : Tx Ctx
      first = transmit p (account p tx) head flags

      added : Adds tx first head
      added = transmit-Adds tx head flags (omega arith) (
          omega
            (arith, length-append head (replicate left 0xff), length-replicate {A = ℕ} left 0xff))

  pub send_pes-Adds :
      (flags : ℕ) (tx : Tx Ctx)
      → sent_some p tx ≡ true
      → not (tx.push.header.pusi == 0) ≡ true
      → length (pes_bytes (stamp_pes tx.push.pes tx.push.dev_pcr (add32 tx.push.pcr 90))) ≤ room tx
      → Adds tx
          (send_pes p flags tx)
          (pes_bytes (stamp_pes tx.push.pes tx.push.dev_pcr (add32 tx.push.pcr 90)))
  unfolding send_pes
  send_pes-Adds flags tx going first fits =
      rw (going, first)
        (record {
          took = added.took;
          leaves = added.leaves;
          going = added.going;
          same_header = added.same_header;
          same_rest = added.same_rest;
        })
    where
      pcr : ℕ
      pcr = add32 tx.push.pcr 90

      stamped : Tx Ctx
      stamped = record tx {
        push = record tx.push {
          pcr = pcr;
          pts = pcr;
          pes = stamp_pes tx.push.pes tx.push.dev_pcr pcr;
        };
      }

      added :
          Adds stamped
            (transmit p
              (account p stamped)
              (pes_bytes (stamp_pes tx.push.pes tx.push.dev_pcr pcr))
              flags)
            (pes_bytes (stamp_pes tx.push.pes tx.push.dev_pcr pcr))
      added =
          transmit-Adds stamped (pes_bytes (stamp_pes tx.push.pes tx.push.dev_pcr pcr)) flags
            (omega arith) fits

  pub send_payload-Adds :
      (lastflags : ℕ) (tx : Tx Ctx)
      → sent_some p tx ≡ true
      → 0 < room tx
      → 0 < length tx.push.rest
      → Adds tx (send_payload p lastflags tx) (take (room tx) tx.push.rest)
  unfolding send_payload
  send_payload-Adds lastflags tx going some_room some_rest = rw going (
      transmit-Adds tx (take (room tx) tx.push.rest) lastflags
        (omega (arith, length-take (room tx) tx.push.rest))
        (omega (arith, length-take (room tx) tx.push.rest)))
