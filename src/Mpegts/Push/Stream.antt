-- ===== src/Mpegts/Push/Stream.antt =====
-- A reader of the packets that the loop of src/smpegts.c writes.
use mathlib.Core.Path.{subst}
use fastvideo.Prelude.{
  ◌⊎◌, ℕ, ◌∙◌, refl, ◌+◌, sym, ◌*◌, ap, ◌^◌, inl, ◌≡◌, inr, ◌%◌, bit_and, ◌/◌, bit_or, ◌<◌, Bool,
  ◌∷◌, true, ◌++◌, false, ◌==◌, not, if◌then◌else◌, List, [], arith, ltb, length, get_or, take,
  drop, Bool-cases,
}
use fastvideo.Prelude.Int.{add32}
use fastvideo.Mpegts.{Header, header_bytes}
use fastvideo.Mpegts.Push.{Push, padded_header, pes_bytes, stamp_pes, adapt_tail, first_padding}
use fastvideo.Mpegts.Push.Round.{adaptation}
use fastvideo.Mpegts.Push.Packet.{IsReady, IsHeader, pes_part, share, packet, length-adaptation}

-- A reader's view of a packet: the bytes behind the header, the adaptation field that bit 5 of the
-- fourth byte announces, and the PES header that the unit start announces.
abbrev skip_pes : List ℕ → List ℕ
skip_pes body = drop (9 + get_or body 8 0) body

abbrev after_field : List ℕ → List ℕ
after_field packet =
    drop (4 + (if get_or packet 3 0 / 32 % 2 == 1 then 1 + get_or packet 4 0 else 0)) packet

unfoldable pub elementary : List ℕ → List ℕ
elementary packet =
    if get_or packet 1 0 / 64 % 2 == 1 then skip_pes (after_field packet) else after_field packet

drop-append : {n : ℕ} (xs ys : List ℕ) → n ≡ length xs → drop n (xs ++ ys) ≡ ys
drop-append {n} [] ys e = rw e
drop-append {n} (x ∷ xs) ys e = rw e (drop-append xs ys refl)

-- The reader's test on the fourth byte is the field that the writer set.
control_bit :
    (cc afi tsi : ℕ) → cc < 2 ^ 4 → afi < 4 → (cc + 2 ^ 4 * afi + 2 ^ 6 * tsi) / 32 % 2 ≡ afi / 2
control_bit cc afi tsi hc ha = omega arith

module _ (h : Header) (fields : IsHeader h) (behind : List ℕ) where
  after_field_some :
      (padding : ℕ) (tail : List ℕ)
      → h.afi ≡ 3
      → after_field (header_bytes h ++ (adaptation padding tail ++ behind)) ≡ behind
  after_field_some padding tail e =
      rw (control_bit h.cc h.afi h.tsi fields.cc (omega arith) ∙ ap (λ a. a / 2) e) (
        drop-append (header_bytes h ++ adaptation padding tail) behind
          (omega (arith, length-adaptation padding tail)))

  after_field_none : h.afi ≡ 1 → after_field (header_bytes h ++ ([] ++ behind)) ≡ behind
  after_field_none e = rw (control_bit h.cc h.afi h.tsi fields.cc (omega arith) ∙ ap (λ a. a / 2) e)

control_cases :
    (a : ℕ)
    → (a ≡ 1) ⊎ (a ≡ 3)
    → (not (bit_and a 0x02 == 0) ≡ true) × (a ≡ 3) ⊎ (not (bit_and a 0x02 == 0) ≡ false) × (a ≡ 1)
control_cases a (inl e) = inr (rw e, e)
control_cases a (inr e) = inl (rw e, e)

set_control : (a : ℕ) → (a ≡ 1) ⊎ (a ≡ 3) → bit_or a 0x2 ≡ 3
set_control a (inl e) = rw e
set_control a (inr e) = rw e

module _ {Ctx : Type 0} (s : Push Ctx) (ready : IsReady s) where
  padded_control : ((padded_header s).afi ≡ 1) ⊎ ((padded_header s).afi ≡ 3)
  padded_control = elim (Bool-cases (ltb 0 (first_padding s.header (length s.rest)))) [
    | inl e ↦
        inr
          (ap (λ b. (if b then more else s.header).afi) e ∙ set_control s.header.afi ready.control)
    | inr e ↦
        subst (λ a. (a ≡ 1) ⊎ (a ≡ 3)) (sym (ap (λ b. (if b then more else s.header).afi) e))
          ready.control
  ]
    where
      more : Header
      more = record s.header { afi = bit_or s.header.afi 0x2 }

  pub padded_fields : IsHeader (padded_header s)
  padded_fields = ground (arith, ready.fields)

  -- The reader takes the PES header off.
  skip_pes-part :
      (s.header.pusi == 0) ≡ false → (tail : List ℕ) → skip_pes (pes_part s ++ tail) ≡ tail
  unfolding stamp_pes
  skip_pes-part e tail = rw e (rw ready.stamped refl)

module _ {Ctx : Type 0} (randomaccess : ℕ) (s : Push Ctx) (ready : IsReady s) where
  -- The reader takes the adaptation field off.
  after_field-packet :
      after_field (packet randomaccess s) ≡ pes_part s ++ take (share randomaccess s) s.rest
  after_field-packet = elim (control_cases (padded_header s).afi (padded_control s ready)) [
    | inl (wanted, e) ↦
        ap
          (λ b.
            after_field (header_bytes (padded_header s) ++ ((if b then field else []) ++ behind)))
          wanted
        ∙ after_field_some (padded_header s) (padded_fields s ready) behind padding
            (adapt_tail randomaccess s.dev_pcr s.pcr) e
    | inr (unwanted, e) ↦
        ap
          (λ b.
            after_field (header_bytes (padded_header s) ++ ((if b then field else []) ++ behind)))
          unwanted
        ∙ after_field_none (padded_header s) (padded_fields s ready) behind e
  ]
    where
      padding : ℕ
      padding = first_padding s.header (length s.rest)

      field : List ℕ
      field = adaptation padding (adapt_tail randomaccess s.dev_pcr s.pcr)

      behind : List ℕ
      behind = pes_part s ++ take (share randomaccess s) s.rest

  unit_bit : get_or (packet randomaccess s) 1 0 / 64 % 2 ≡ s.header.pusi
  unit_bit = ground (arith, padded_fields s ready)

  unit_test : (get_or (packet randomaccess s) 1 0 / 64 % 2 == 1) ≡ not (s.header.pusi == 0)
  unit_test = rw unit_bit (ground (arith, ready.unit_start))

  -- A reader finds in the packet the bytes of the frame that the writer put there, and no others.
  pub elementary-packet : elementary (packet randomaccess s) ≡ take (share randomaccess s) s.rest
  unfolding elementary
  elementary-packet = elim (Bool-cases (s.header.pusi == 0)) [
    | inl later ↦
        ap strip (unit_test ∙ ap not later)
        ∙ after_field-packet
        ∙ ap (λ b. (if b then [] else stamped) ++ mine) later
    | inr first ↦
        ap strip (unit_test ∙ ap not first)
        ∙ ap skip_pes after_field-packet
        ∙ skip_pes-part s ready first mine
  ]
    where
      mine : List ℕ
      mine = take (share randomaccess s) s.rest

      stamped : List ℕ
      stamped = pes_bytes (stamp_pes s.pes s.dev_pcr (add32 s.pcr 90))

      strip : Bool → List ℕ
      strip b =
          if b
          then skip_pes (after_field (packet randomaccess s))
          else after_field (packet randomaccess s)
