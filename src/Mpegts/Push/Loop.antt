-- ===== src/Mpegts/Push/Loop.antt =====
-- The packet loop of `_client_pushdata` of src/smpegts.c as a whole, from the side of a reader.
use mathlib.Core.Path.{subst, ap₂}
use mathlib.Core.List.{append_assoc, append-nil, flatten}
use fastvideo.Prelude.{
  ◌≡◌, ℕ, ◌∷◌, zero, ◌+◌, suc, ◌%◌, refl, ◌<◌, sym, ◌∙◌, ap, ◌++◌, inl, ◌&&◌, inr, Bool, true,
  false, List, [], some, arith, ltb, lt→ltb, ltb→lt, length, get_or, length-drop, Bool-cases,
  take-append-drop,
}
use fastvideo.Prelude.Int.{pos, pos_part, ltb_ℤ}
use fastvideo.Mpegts.Packets.{packetlen}
use fastvideo.Mpegts.Transport.{Proto, IsReliable, proto_more}
use fastvideo.Mpegts.Push.{
  Push, Tx, transmit, settle, first_padding, lastflags_of, send_adaptation, send_pes, send_payload,
  padded_header, packet_round, push_loop,
}
use fastvideo.Mpegts.Push.Packet.{IsReady, share, packet, share_bounds, length-packet}
use fastvideo.Mpegts.Push.Rounds.{
  RoundDone, packet_round-RoundDone, field_sent, pes_sent, all_sent, packet_round_lem,
}
use fastvideo.Mpegts.Push.Written.{first_send}
use fastvideo.Mpegts.Push.Stream.{elementary, elementary-packet, padded_fields}

-- Packets of 188 bytes that start with the sync byte, with consecutive counters from `cc` on.
abbrev pub IsStream : ℕ → List (List ℕ) → Type 0
IsStream cc [] = Unit
IsStream cc (k ∷ ks) =
    (length k ≡ packetlen)
    × (get_or k 0 0 ≡ 0x47)
    × (get_or k 3 0 % 16 ≡ cc)
    × IsStream ((cc + 1) % 16) ks

-- The bytes that a reader collects from packets.
unfoldable pub collect : List (List ℕ) → List ℕ
collect [] = []
collect (k ∷ ks) = elementary k ++ collect ks

module _ (p : Proto) where
  open p use {Ctx}

  -- No send of a round touches the frame.
  rest-sends :
      (flags randomaccess padding : ℕ) (tx : Tx Ctx)
      → ((send_adaptation p flags randomaccess padding tx).push.rest ≡ tx.push.rest)
        × ((send_pes p flags tx).push.rest ≡ tx.push.rest)
        × ((send_payload p flags tx).push.rest ≡ tx.push.rest)
  unfolding send_adaptation send_pes send_payload
  rest-sends flags randomaccess padding tx = ground arith

  rest-all_sent : (randomaccess : ℕ) (s : Push Ctx) → (all_sent p randomaccess s).push.rest ≡ s.rest
  unfolding transmit
  rest-all_sent randomaccess s =
      (rest-sends (lastflags_of s) randomaccess 0 (pes_sent p randomaccess s)).2
      ∙ (rest-sends proto_more randomaccess 0 (field_sent p randomaccess s)).1
      ∙ (rest-sends proto_more randomaccess (first_padding s.header (length s.rest))
          (first_send p s)).0

  settle-shorter :
      (lastflags : ℕ) (tx : Tx Ctx)
      → 0 < length tx.push.rest
      → ltb_ℤ (pos 0) (settle p lastflags tx).ret ≡ true
      → length (settle p lastflags tx).rest < length tx.push.rest
  unfolding settle
  settle-shorter lastflags tx more going =
      ground (arith, length-drop (pos_part tx.push.ret) tx.push.rest)

  -- Whatever the transport answers, a round that goes on leaves less of the frame.
  packet_round-shorter :
      (randomaccess : ℕ) (s : Push Ctx)
      → 0 < length s.rest
      → ltb_ℤ (pos 0) (packet_round p randomaccess s).ret ≡ true
      → length (packet_round p randomaccess s).rest < length s.rest
  packet_round-shorter randomaccess s more going = rw (packet_round_lem p randomaccess s) (
      omega (
        arith,
        settle-shorter (lastflags_of s) (all_sent p randomaccess s)
            (omega (arith, ap length (rest-all_sent randomaccess s)))
            (ap (λ t. ltb_ℤ (pos 0) t.ret) (sym (packet_round_lem p randomaccess s)) ∙ going),
        ap length (rest-all_sent randomaccess s),
      ))

module _ (p : Proto) (randomaccess : ℕ) where
  open p use {Ctx}

  -- `while (length > 0 && ret > 0)`
  abbrev goes_on : Push Ctx → Bool
  goes_on s = ltb 0 (length s.rest) && ltb_ℤ (pos 0) s.ret

  push_loop_stop :
      (fuel : ℕ) (s : Push Ctx) → goes_on s ≡ false → push_loop p (suc fuel) randomaccess s ≡ some s
  unfolding push_loop
  push_loop_stop fuel s e = rw e

  push_loop_step :
      (fuel : ℕ) (s : Push Ctx)
      → goes_on s ≡ true
      → push_loop p (suc fuel) randomaccess s
        ≡ push_loop p fuel randomaccess (packet_round p randomaccess s)
  unfolding push_loop
  push_loop_step fuel s e = rw e

  push_loop_failed :
      (fuel : ℕ) (s : Push Ctx)
      → 0 < fuel
      → ltb_ℤ (pos 0) s.ret ≡ false
      → push_loop p fuel randomaccess s ≡ some s
  push_loop_failed zero s h failed = absurd (omega arith)
  push_loop_failed (suc fuel) s h failed = push_loop_stop fuel s (ground arith)

  -- For every transport, honest or not, the loop ends: one round more than the frame has bytes is
  -- always enough.
  pub push_loop_ends :
      (fuel : ℕ) (s : Push Ctx)
      → length s.rest < fuel
      → (s' : Push Ctx) × (push_loop p fuel randomaccess s ≡ some s')
  push_loop_ends zero s h = absurd (omega arith)
  push_loop_ends (suc fuel) s h = elim (Bool-cases (goes_on s)) [
    | inl going ↦ elim (Bool-cases (ltb_ℤ (pos 0) (packet_round p randomaccess s).ret)) [
      | inl again ↦
          let (s', e) =
            push_loop_ends fuel (packet_round p randomaccess s)
              (omega (arith, packet_round-shorter p randomaccess s (more going) again)) in
          (s', push_loop_step fuel s going ∙ e)
      | inr failed ↦ (
        packet_round p randomaccess s,
        push_loop_step fuel s going
            ∙ push_loop_failed fuel (packet_round p randomaccess s) (omega (arith, more going))
                failed,
      )
    ]
    | inr stop ↦ (s, push_loop_stop fuel s stop)
  ]
    where
      more : goes_on s ≡ true → 0 < length s.rest
      more going = ground arith

-- What becomes of a frame: the loop ends with some state, and the transport has taken the bytes of
-- some packets, which make a stream from the header's counter on and carry the rest of the frame.
abbrev pub Delivers : (p : Proto) → IsReliable p → ℕ → ℕ → Push p.Ctx → Type 0
Delivers p r fuel randomaccess s =
    (s' : Push p.Ctx) × (ks : List (List ℕ)) × (push_loop p fuel randomaccess s ≡ some s')
    × (s'.rest ≡ [])
    × (ltb_ℤ (pos 0) s'.ret ≡ true)
    × (r.taken s'.ctx ≡ r.taken s.ctx ++ flatten ks)
    × IsStream s.header.cc ks
    × (collect ks ≡ s.rest)

module _ (p : Proto) (r : IsReliable p) (randomaccess : ℕ) where
  open p use {Ctx}

  next-IsReady : (s s' : Push Ctx) → IsReady s → RoundDone p r randomaccess s s' → IsReady s'
  next-IsReady s s' ready done = record {
    fields = rw done.counted (ground (arith, padded_fields s ready));
    unit_start = rw done.counted (omega arith);
    control = inl (ap (λ h. h.afi) done.counted);
    stamped = done.stamped;
  }

  deliver_nothing :
      (fuel : ℕ) (s : Push Ctx)
      → ltb_ℤ (pos 0) s.ret ≡ true
      → s.rest ≡ []
      → Delivers p r (suc fuel) randomaccess s
  unfolding collect flatten
  deliver_nothing fuel s going e = (
    s,
    [],
    push_loop_stop p randomaccess fuel s (rw e),
    e,
    going,
    sym (append-nil (r.taken s.ctx)),
    tt,
    sym e,
  )

  padded_cc : (s : Push Ctx) → (padded_header s).cc ≡ s.header.cc
  padded_cc s = ground arith

  packet_head :
      (s : Push Ctx)
      → IsReady s
      → (get_or (packet randomaccess s) 0 0 ≡ 0x47)
        × (get_or (packet randomaccess s) 3 0 % 16 ≡ s.header.cc)
  packet_head s ready = omega (arith, padded_fields s ready, padded_cc s)

  deliver_more :
      (fuel : ℕ) (s : Push Ctx)
      → IsReady s
      → ltb_ℤ (pos 0) s.ret ≡ true
      → 0 < length s.rest
      → Delivers p r fuel randomaccess (packet_round p randomaccess s)
      → Delivers p r (suc fuel) randomaccess s
  unfolding collect flatten
  deliver_more fuel s ready going more (s', ks, e, empty, still, took, stream, whole) = (
    s',
    packet randomaccess s ∷ ks,
    push_loop_step p randomaccess fuel s (ground arith) ∙ e,
    empty,
    still,
    took
        ∙ ap (λ t. t ++ flatten ks) done.took
        ∙ append_assoc (r.taken s.ctx) (packet randomaccess s) (flatten ks),
    (
      length-packet randomaccess s ready more,
      (packet_head s ready).0,
      (packet_head s ready).1,
      subst (λ c. IsStream c ks)
          (ap (λ h. h.cc) done.counted ∙ ap (λ c. (c + 1) % 16) (padded_cc s)) stream,
    ),
    ap₂ ◌++◌ (elementary-packet randomaccess s ready) (whole ∙ done.moved)
        ∙ take-append-drop (share randomaccess s) s.rest,
  )
    where
      done : RoundDone p r randomaccess s (packet_round p randomaccess s)
      done = packet_round-RoundDone p r randomaccess s ready more

  -- Over a transport that takes all that it is given, from a state whose headers are in order, the
  -- loop ends with the whole frame taken: what the transport took since is a stream of packets of
  -- 188 bytes with the sync byte and consecutive counters, and a reader collects from them the
  -- bytes of the frame, all of them and no others.
  pub push_loop-Delivers :
      (fuel : ℕ) (s : Push Ctx)
      → IsReady s
      → ltb_ℤ (pos 0) s.ret ≡ true
      → length s.rest < fuel
      → Delivers p r fuel randomaccess s
  push_loop-Delivers zero s ready going enough = absurd (omega arith)
  push_loop-Delivers (suc fuel) s ready going enough = elim (Bool-cases (ltb 0 (length s.rest))) [
    | inl more ↦ deliver_more fuel s ready going (ltb→lt 0 (length s.rest) more) (
        push_loop-Delivers fuel (packet_round p randomaccess s)
          (next-IsReady s (packet_round p randomaccess s) ready (done more)) (again more)
          (shorter more))
    | inr none_left ↦ deliver_nothing fuel s going (empty s.rest none_left)
  ]
    where
      empty : (xs : List ℕ) → ltb 0 (length xs) ≡ false → xs ≡ []
      empty [] h = refl
      empty (x ∷ xs) h = absurd (ground arith)

      done :
          ltb 0 (length s.rest) ≡ true
          → RoundDone p r randomaccess s (packet_round p randomaccess s)
      done more = packet_round-RoundDone p r randomaccess s ready (ltb→lt 0 (length s.rest) more)

      again :
          (more : ltb 0 (length s.rest) ≡ true)
          → ltb_ℤ (pos 0) (packet_round p randomaccess s).ret ≡ true
      again more = rw (done more).going (
          lt→ltb _ _
            (omega (arith, share_bounds randomaccess s ready (ltb→lt 0 (length s.rest) more))))

      shorter : ltb 0 (length s.rest) ≡ true → length (packet_round p randomaccess s).rest < fuel
      shorter more = omega (
        arith,
        packet_round-shorter p randomaccess s (ltb→lt 0 (length s.rest) more) (again more),
      )
