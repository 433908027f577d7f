-- ===== src/Mpegts/Push/Rounds.antt =====
-- The rounds of the packet loop of src/smpegts.c in closed form.
use mathlib.Core.Path.{subst, ap₂}
use mathlib.Core.List.{append_assoc}
use fastvideo.Prelude.{
  ◌^◌, ℕ, ◌%◌, zero, ◌≡◌, suc, ◌≤◌, refl, ◌∙◌, sym, ◌+◌, ap, ◌<◌, inl, ◌∷◌, inr, ◌==◌, List, ◌++◌,
  [], if◌then◌else◌, arith, length, take, drop, length-take, Bool-cases,
}
use fastvideo.Prelude.Int.{pos}
use fastvideo.Mpegts.{Header, header_bytes}
use fastvideo.Mpegts.Transport.{Proto, IsReliable, proto_more}
use fastvideo.Mpegts.Push.{
  Push, Tx, first_padding, send_adaptation, send_pes, send_payload, padded_header, lastflags_of,
  settle, packet_round,
}
use fastvideo.Mpegts.Push.Round.{room, Adds, Adds-append, send_payload-Adds}
use fastvideo.Mpegts.Push.Packet.{
  IsReady, field_part, pes_part, share, packet, share_bounds, length-pes_part,
}
use fastvideo.Mpegts.Push.Written.{
  send_adaptation-stamps, first_send, first_send-facts, field_stage, own_pes_stage, payload-ret,
  keeps-ptsi,
}

pub drop_all : (n : ℕ) (xs : List ℕ) → length xs ≤ n → drop n xs ≡ []
drop_all zero [] h = refl
drop_all (suc n) [] h = refl
drop_all zero (x ∷ xs) h = absurd (omega arith)
drop_all (suc n) (x ∷ xs) h = drop_all n xs (omega arith)

pes_part_eq :
    {Ctx : Type 0} (s t : Push Ctx)
    → t.header.pusi ≡ s.header.pusi
    → t.pes ≡ s.pes
    → t.dev_pcr ≡ s.dev_pcr
    → t.pcr ≡ s.pcr
    → pes_part t ≡ pes_part s
pes_part_eq s t e f g h = rw (e, f, g, h)

pusi-padded_header : {Ctx : Type 0} (s : Push Ctx) → (padded_header s).pusi ≡ s.header.pusi
pusi-padded_header s = ground arith

-- The header behind a packet that was sent.
abbrev pub next_header : Header → Header
next_header h = record h { pusi = 0; afi = 1; cc = (h.cc + 1) % 2 ^ 4 }

module _ (p : Proto) where
  open p use {Ctx}

  -- The state behind the adaptation field, the PES header and the payload of a round.
  abbrev pub field_sent : ℕ → Push Ctx → Tx Ctx
  field_sent randomaccess s =
      send_adaptation p proto_more randomaccess (first_padding s.header (length s.rest))
        (first_send p s)

  abbrev pub pes_sent : ℕ → Push Ctx → Tx Ctx
  pes_sent randomaccess s = send_pes p proto_more (field_sent randomaccess s)

  abbrev pub all_sent : ℕ → Push Ctx → Tx Ctx
  all_sent randomaccess s = send_payload p (lastflags_of s) (pes_sent randomaccess s)

  pub packet_round_lem :
      (randomaccess : ℕ) (s : Push Ctx)
      → packet_round p randomaccess s ≡ settle p (lastflags_of s) (all_sent randomaccess s)
  unfolding packet_round
  packet_round_lem randomaccess s = refl

  settle_sent :
      (lastflags n : ℕ) (tx : Tx Ctx)
      → tx.push.ret ≡ pos n
      → 0 < n
      → let s = settle p lastflags tx in
        (s.ctx ≡ tx.push.ctx)
        × (s.rest ≡ drop n tx.push.rest)
        × (s.ret ≡ pos n)
        × (s.header ≡ next_header tx.push.header)
        × (s.pes ≡ tx.push.pes)
        × (s.pcr ≡ 0)
  unfolding settle
  settle_sent lastflags n tx e some_bytes = ground (arith, drop_all n tx.push.rest)

module _ (p : Proto) (r : IsReliable p) where
  open p use {Ctx}

  -- What a round makes of the state: one packet more is taken, and the rest of the frame is left.
  pub record RoundDone (randomaccess : ℕ) (s s' : Push Ctx) : Type 0 where
    pub took : r.taken s'.ctx ≡ r.taken s.ctx ++ packet randomaccess s
    pub moved : s'.rest ≡ drop (share randomaccess s) s.rest
    pub going : s'.ret ≡ pos (share randomaccess s)
    pub counted : s'.header ≡ next_header (padded_header s)
    pub stamped : s'.pes.ptsi ≡ 3
    pub clock_sent : s'.pcr ≡ 0

  module _ (randomaccess : ℕ) (s : Push Ctx) (ready : IsReady s) (more : 0 < length s.rest) where
    first : Adds p r (first_send p s) (field_sent p randomaccess s) (field_part randomaccess s)
    first = field_stage p r randomaccess s ready more

    stamps :
        ((field_sent p randomaccess s).push.pes ≡ s.pes)
        × ((field_sent p randomaccess s).push.dev_pcr ≡ s.dev_pcr)
        × ((field_sent p randomaccess s).push.pcr ≡ s.pcr)
    stamps = (
      kept.0 ∙ (first_send-facts p r s).5,
      kept.1 ∙ (first_send-facts p r s).6,
      kept.2 ∙ (first_send-facts p r s).7,
    )
      where
        kept :
            ((field_sent p randomaccess s).push.pes ≡ (first_send p s).push.pes)
            × ((field_sent p randomaccess s).push.dev_pcr ≡ (first_send p s).push.dev_pcr)
            × ((field_sent p randomaccess s).push.pcr ≡ (first_send p s).push.pcr)
        kept =
            send_adaptation-stamps p proto_more randomaccess
              (first_padding s.header (length s.rest)) (first_send p s)

    same_pusi : (field_sent p randomaccess s).push.header.pusi ≡ s.header.pusi
    same_pusi =
        ap (λ h. h.pusi) (first.same_header ∙ (first_send-facts p r s).3) ∙ pusi-padded_header s

    same_pes_part : pes_part (field_sent p randomaccess s).push ≡ pes_part s
    same_pes_part =
        pes_part_eq s (field_sent p randomaccess s).push same_pusi stamps.0 stamps.1 stamps.2

    -- What the packet has room for behind the adaptation field and the PES header.
    fits :
        (room (field_sent p randomaccess s) ≡ length (pes_part s) + share randomaccess s)
        × (0 < share randomaccess s)
        × (share randomaccess s ≤ length s.rest)
    fits =
        omega
          (arith, first.leaves, (first_send-facts p r s).1, share_bounds randomaccess s ready more)

    second : Adds p r (field_sent p randomaccess s) (pes_sent p randomaccess s) (pes_part s)
    second =
        subst (Adds p r (field_sent p randomaccess s) (pes_sent p randomaccess s)) same_pes_part (
          own_pes_stage p r (field_sent p randomaccess s) first.going
            (ap (λ h. h.ptsi) stamps.0 ∙ ready.stamped)
            (elim (Bool-cases (s.header.pusi == 0)) [
              | inl e ↦ inl (ap (λ n. n == 0) same_pusi ∙ e)
              | inr e ↦ inr (
                ap (λ n. n == 0) same_pusi ∙ e,
                omega
                    (arith, fits, length-pes_part s ready, ap {B = ℕ} (λ b. if b then 0 else 19) e),
              )
            ]))

    share_left : room (pes_sent p randomaccess s) ≡ share randomaccess s
    share_left = omega (arith, second.leaves, fits)

    same_rest : (pes_sent p randomaccess s).push.rest ≡ s.rest
    same_rest = second.same_rest ∙ first.same_rest ∙ (first_send-facts p r s).4

    payload :
        take (room (pes_sent p randomaccess s)) (pes_sent p randomaccess s).push.rest
        ≡ take (share randomaccess s) s.rest
    payload = ap₂ take share_left same_rest

    third :
        Adds p r
          (pes_sent p randomaccess s)
          (all_sent p randomaccess s)
          (take (share randomaccess s) s.rest)
    third = subst (Adds p r (pes_sent p randomaccess s) (all_sent p randomaccess s)) payload (
        send_payload-Adds p r (lastflags_of s) (pes_sent p randomaccess s) second.going
          (omega (arith, share_left, fits)) (omega (arith, ap length same_rest)))

    payload_sent : (all_sent p randomaccess s).push.ret ≡ pos (share randomaccess s)
    payload_sent =
        payload-ret p r (lastflags_of s) (pes_sent p randomaccess s) second.going
        ∙ ap pos
            (ap length payload ∙ omega (arith, length-take (share randomaccess s) s.rest, fits))

    all_taken :
        r.taken (all_sent p randomaccess s).push.ctx ≡ r.taken s.ctx ++ packet randomaccess s
    all_taken =
        (Adds-append p r (first_send p s) (pes_sent p randomaccess s) (all_sent p randomaccess s)
          (field_part randomaccess s ++ pes_part s) (take (share randomaccess s) s.rest)
          (Adds-append p r (first_send p s) (field_sent p randomaccess s)
            (pes_sent p randomaccess s) (field_part randomaccess s) (pes_part s) first second)
          third).took
        ∙ ap
            (λ t.
              t
              ++ ((field_part randomaccess s ++ pes_part s) ++ take (share randomaccess s) s.rest))
            (first_send-facts p r s).0
        ∙ append_assoc (r.taken s.ctx) (header_bytes (padded_header s))
            ((field_part randomaccess s ++ pes_part s) ++ take (share randomaccess s) s.rest)
        ∙ ap (λ t. r.taken s.ctx ++ (header_bytes (padded_header s) ++ t))
            (append_assoc (field_part randomaccess s) (pes_part s)
              (take (share randomaccess s) s.rest))

    ended :
        let s' = settle p (lastflags_of s) (all_sent p randomaccess s) in
        (s'.ctx ≡ (all_sent p randomaccess s).push.ctx)
        × (s'.rest ≡ drop (share randomaccess s) (all_sent p randomaccess s).push.rest)
        × (s'.ret ≡ pos (share randomaccess s))
        × (s'.header ≡ next_header (all_sent p randomaccess s).push.header)
        × (s'.pes ≡ (all_sent p randomaccess s).push.pes)
        × (s'.pcr ≡ 0)
    ended =
        settle_sent p (lastflags_of s) (share randomaccess s) (all_sent p randomaccess s)
          payload_sent fits.1

    settled : RoundDone randomaccess s (settle p (lastflags_of s) (all_sent p randomaccess s))
    settled = record {
      took = ap r.taken ended.0 ∙ all_taken;
      moved = ended.1 ∙ ap (drop (share randomaccess s)) (third.same_rest ∙ same_rest);
      going = ended.2;
      counted =
          ended.3
          ∙ ap next_header (
              third.same_header
              ∙ second.same_header
              ∙ first.same_header
              ∙ (first_send-facts p r s).3);
      stamped =
          ap (λ h. h.ptsi) ended.4
          ∙ (keeps-ptsi p r (lastflags_of s) (pes_sent p randomaccess s)).1
          ∙ (keeps-ptsi p r proto_more (field_sent p randomaccess s)).0
          ∙ ap (λ h. h.ptsi) stamps.0
          ∙ ready.stamped;
      clock_sent = ended.5;
    }

    pub packet_round-RoundDone : RoundDone randomaccess s (packet_round p randomaccess s)
    packet_round-RoundDone =
        subst (RoundDone randomaccess s) (sym (packet_round_lem p randomaccess s)) settled
