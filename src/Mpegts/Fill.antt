-- ===== src/Mpegts/Fill.antt =====
-- The tables and null packets that complete a datagram, `_client_filldata` of src/smpegts.c.
pub mod Laws
use fastvideo.Prelude.{
  ◌*◌, ℕ, ◌/◌, zero, ◌+◌, suc, ◌%◌, Bool, ◌-◌, true, ◌^◌, false, ◌∷◌, List, ◌&&◌, [], ◌==◌, Option,
  ◌||◌, none, if◌then◌else◌, some, ltb, get_or, set,
}
use mathlib.Core.Option
use fastvideo.Prelude.Int.{ℤ, pos, negsuc, pos_part, ◌+ℤ◌, ltb_ℤ}
use fastvideo.Mpegts.Packets.{packetlen}
use fastvideo.Mpegts.Transport.{Proto, Sent, proto_more}

-- The locals of the function: `mtu` is a `size_t`, `length` the bytes counted so far.
pub record Fill (Ctx : Type 0) : Type 0 where
  pub ctx : Ctx
  pub errno : ℕ
  pub ret : ℤ
  pub mtu : ℕ
  pub length : ℤ

-- `header.cc = (cc + 1) & 0x0f` in the fourth byte of a packet.
unfoldable pub bump_cc : List ℕ → List ℕ
bump_cc raw = set raw 3 (get_or raw 3 0 / 2 ^ 4 * 2 ^ 4 + (get_or raw 3 0 + 1) % 2 ^ 4)

-- `nullpacket[3] += 1; nullpacket[3] %= 0x0f;`
unfoldable pub next_null : List ℕ → List ℕ
next_null raw = set raw 3 ((get_or raw 3 0 + 1) % 2 ^ 8 % 0x0f)

module _ (p : Proto) where
  open p use {Ctx, send}

  -- The condition that all four blocks share: `ret > 0 && mtu > dev->packetlen`.
  abbrev pub has_room : Fill Ctx → Bool
  has_room f = ltb_ℤ (pos 0) f.ret && ltb packetlen f.mtu

  abbrev pub fill_flags : Fill Ctx → ℕ
  fill_flags f = if ltb f.mtu (2 * packetlen) then 0 else proto_more

  -- A send of one packet; what it took whole comes off `mtu`.
  unfoldable pub fill_send : Fill Ctx → List ℕ → Fill Ctx
  fill_send f raw =
      let sent : Sent Ctx = send f.ctx raw (fill_flags f) in
      record f {
        ctx = sent.ctx;
        errno = sent.errno;
        ret = sent.ret;
        mtu =
            (if ltb_ℤ sent.ret (pos packetlen)
              then f.mtu
              else if ltb_ℤ (pos packetlen) sent.ret
              then f.mtu
              else (f.mtu + 2 ^ 64 - packetlen) % 2 ^ 64);
      }

  -- The block of a table: the first one, of the PMT, does not count the `ret` that it finds.
  unfoldable pub fill_table : Bool → Fill Ctx × List ℕ → Fill Ctx × List ℕ
  unfolding bump_cc fill_send ◌+ℤ◌
  fill_table counts (f, raw) =
      if has_room f
      then (
        fill_send (record f { length = if counts then f.length +ℤ f.ret else f.length })
            (bump_cc raw),
        bump_cc raw,
      )
      else (f, raw)

  -- The loop of null packets. It ends on a packet that was not taken whole.
  unfoldable pub fill_nulls : ℕ → Fill Ctx × List ℕ → Option (Fill Ctx × List ℕ)
  unfolding next_null fill_send ◌+ℤ◌
  fill_nulls zero (f, raw) = none
  fill_nulls (suc fuel) (f, raw) =
      let f' : Fill Ctx = fill_send (record f { length = f.length +ℤ f.ret }) raw in
      let rest : Option (Fill Ctx × List ℕ) = fill_nulls fuel (f', next_null raw) in
      if has_room f
      then (if ltb_ℤ f'.ret (pos packetlen) || ltb_ℤ (pos packetlen) f'.ret
          then some (f', raw)
          else rest)
      else some (f, raw)

  -- What the function leaves: its value, the locals, and the four packets.
  pub record Filled : Type 0 where
    pub value : ℤ
    pub state : Fill Ctx
    pub pmt : List ℕ
    pub pat : List ℕ
    pub sdt : List ℕ
    pub nulls : List ℕ

  unfoldable pub finish_fill : List ℕ → List ℕ → List ℕ → Fill Ctx × List ℕ → Filled
  finish_fill pmt pat sdt (f, nulls) = record {
    value = if ltb_ℤ (pos 0) f.ret then f.length else f.ret;
    state = f;
    pmt = pmt;
    pat = pat;
    sdt = sdt;
    nulls = nulls;
  }

  -- The whole function, from `ret = 1` and `length = 0`. The loop takes at most `mtu` rounds.
  unfoldable pub filldata : Ctx → ℕ → ℕ → List ℕ → List ℕ → List ℕ → List ℕ → Option Filled
  unfolding fill_table fill_nulls finish_fill
  filldata c errno mtu pmt pat sdt nulls =
      let f0 : Fill Ctx = record {
        ctx = c;
        errno = errno;
        ret = pos 1;
        mtu = mtu;
        length = pos 0;
      } in
      let a : Fill Ctx × List ℕ = fill_table false (f0, pmt) in
      let b : Fill Ctx × List ℕ = fill_table true (a.0, pat) in
      let d : Fill Ctx × List ℕ = fill_table true (b.0, sdt) in
      Option.map (finish_fill a.1 b.1 d.1) (fill_nulls (suc mtu) (d.0, nulls))
