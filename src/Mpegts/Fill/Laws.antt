-- ===== src/Mpegts/Fill/Laws.antt =====
-- The rounds of `_client_filldata` of src/smpegts.c, and the null packet behind a send.

use mathlib.Core.Option
use fastvideo.Prelude.{
  ◌≡◌, ℕ, ◌^◌, zero, ◌∙◌, suc, ◌≤◌, ap, ◌/◌, inl, ◌+◌, inr, ◌<◌, Bool, ◌⊎◌, true, ◌%◌, false, ◌≢◌,
  List, ◌||◌, some, arith, ltb, length, get_or, get_or-set_self, Bool-cases,
}
use fastvideo.Prelude.Int.{ℤ, pos, ltb_ℤ, ◌+ℤ◌}
use fastvideo.Mpegts.Packets.{packetlen}
use fastvideo.Mpegts.Transport.{Proto}
use fastvideo.Mpegts.Fill.{
  Fill, Filled, next_null, has_room, fill_send, fill_table, fill_nulls, finish_fill, filldata,
}

module _ (p : Proto) where
  open p use {Ctx}

  -- A round of the loop of null packets.
  abbrev sent_null : Fill Ctx → List ℕ → Fill Ctx
  sent_null f raw = fill_send p (record f { length = f.length +ℤ f.ret }) raw

  abbrev not_whole : ℤ → Bool
  not_whole ret = ltb_ℤ ret (pos packetlen) || ltb_ℤ (pos packetlen) ret

  sent_null-mtu :
      (f : Fill Ctx) (raw : List ℕ)
      → has_room p f ≡ true
      → f.mtu < 2 ^ 64
      → not_whole (sent_null f raw).ret ≡ false
      → (sent_null f raw).mtu + 188 ≡ f.mtu
  unfolding fill_send
  sent_null-mtu f raw h w e = ground arith

  fill_nulls_stop :
      (fuel : ℕ) (f : Fill Ctx) (raw : List ℕ)
      → has_room p f ≡ false
      → fill_nulls p (suc fuel) (f, raw) ≡ some (f, raw)
  unfolding fill_nulls
  fill_nulls_stop fuel f raw e = rw e

  fill_nulls_break :
      (fuel : ℕ) (f : Fill Ctx) (raw : List ℕ)
      → has_room p f ≡ true
      → not_whole (sent_null f raw).ret ≡ true
      → fill_nulls p (suc fuel) (f, raw) ≡ some (sent_null f raw, raw)
  unfolding fill_nulls
  fill_nulls_break fuel f raw e b = rw (e, b)

  fill_nulls_step :
      (fuel : ℕ) (f : Fill Ctx) (raw : List ℕ)
      → has_room p f ≡ true
      → not_whole (sent_null f raw).ret ≡ false
      → fill_nulls p (suc fuel) (f, raw) ≡ fill_nulls p fuel (sent_null f raw, next_null raw)
  unfolding fill_nulls
  fill_nulls_step fuel f raw e b = rw (e, b)

  no_room : (f : Fill Ctx) → has_room p f ≡ false → (f.ret ≢ pos 188) ⊎ (f.mtu ≤ 188)
  no_room f e = elim (Bool-cases (ltb packetlen f.mtu)) [
    | inl room ↦ inl (λ r. absurd (ground arith))
    | inr full ↦ inr (ground arith)
  ]

  -- Whatever the transport answers, the loop of null packets ends within `mtu` rounds, and then
  -- the last send did not take a whole packet, or at most one packet more fits.
  pub fill_nulls_ends :
      (fuel : ℕ) (f : Fill Ctx) (raw : List ℕ)
      → f.mtu < fuel
      → f.mtu < 2 ^ 64
      → (g : Fill Ctx) × (last : List ℕ) × (fill_nulls p fuel (f, raw) ≡ some (g, last))
        × ((g.ret ≢ pos 188) ⊎ (g.mtu ≤ 188))
  fill_nulls_ends zero f raw h w = absurd (omega arith)
  fill_nulls_ends (suc fuel) f raw h w = elim (Bool-cases (has_room p f)) [
    | inl room ↦ elim (Bool-cases (not_whole (sent_null f raw).ret)) [
      | inl broken ↦ (
        sent_null f raw,
        raw,
        fill_nulls_break fuel f raw room broken,
        inl (λ e. absurd (ground arith)),
      )
      | inr whole ↦
          let (g, last, e, done) =
            fill_nulls_ends fuel (sent_null f raw) (next_null raw)
              (omega (arith, sent_null-mtu f raw room w whole))
              (omega (arith, sent_null-mtu f raw room w whole)) in
          (g, last, fill_nulls_step fuel f raw room whole ∙ e, done)
    ]
    | inr stop ↦ (f, raw, fill_nulls_stop fuel f raw stop, no_room f stop)
  ]

module _ (p : Proto) where
  open p use {Ctx}

  fill_table-mtu :
      (counts : Bool) (f : Fill Ctx) (raw : List ℕ)
      → f.mtu < 2 ^ 64
      → (fill_table p counts (f, raw)).0.mtu ≤ f.mtu
  unfolding fill_table
  fill_table-mtu counts f raw w = ground arith

  -- Whatever the transport answers, the function ends; and then the last send did not take a whole
  -- packet, or at most one packet more fits the datagram.
  pub filldata_ends :
      (c : Ctx) (errno mtu : ℕ) (pmt pat sdt nulls : List ℕ)
      → mtu < 2 ^ 64
      → (g : Filled p) × (filldata p c errno mtu pmt pat sdt nulls ≡ some g)
        × ((g.state.ret ≢ pos 188) ⊎ (g.state.mtu ≤ 188))
  unfolding filldata finish_fill
  filldata_ends c errno mtu pmt pat sdt nulls w =
      let f0 : Fill Ctx = record {
        ctx = c;
        errno = errno;
        ret = pos 1;
        mtu = mtu;
        length = pos 0;
      } in
      let a : Fill Ctx × List ℕ = fill_table p false (f0, pmt) in
      let b : Fill Ctx × List ℕ = fill_table p true (a.0, pat) in
      let d : Fill Ctx × List ℕ = fill_table p true (b.0, sdt) in
      let ha : a.0.mtu ≤ mtu = fill_table-mtu false f0 pmt w in
      let hb : b.0.mtu ≤ a.0.mtu = fill_table-mtu true a.0 pat (omega arith) in
      let hd : d.0.mtu ≤ b.0.mtu = fill_table-mtu true b.0 sdt (omega arith) in
      let (g, last, e, done) = fill_nulls_ends p (suc mtu) d.0 nulls (omega arith) (omega arith) in
      (finish_fill p a.1 b.1 d.1 (g, last), ap (Option.map (finish_fill p a.1 b.1 d.1)) e, done)

-- Once it has been sent, the null packet announces neither a payload nor an adaptation field: the
-- four bits above its counter are 0, whatever they were.
pub next_null-control : (raw : List ℕ) → 3 < length raw → get_or (next_null raw) 3 0 / 2 ^ 4 ≡ 0
unfolding next_null
next_null-control raw h =
    omega (arith, get_or-set_self raw 3 ((get_or raw 3 0 + 1) % 2 ^ 8 % 0x0f) 0 h)
