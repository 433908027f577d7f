-- ===== src/Mpegts/Device/Ends.antt =====
-- The loops inside `_client_pushdata` of src/smpegts.c, and the rounds that they are given.
use mathlib.Core.Option
use fastvideo.Prelude.{ℕ, suc, ◌^◌, ◌≡◌, ◌<◌, inl, inr, List, some, length, take, Bool-cases, arith}
use fastvideo.Prelude.Int.{ℤ, pos, negsuc, ltb_ℤ}
use fastvideo.Mpegts.Transport.{Proto}
use fastvideo.Mpegts.Push.Loop.{push_loop_ends}
use fastvideo.Mpegts.Fill.Laws.{filldata_ends}
use fastvideo.Mpegts.Device.{Dev, FrameBuffer}
use fastvideo.Mpegts.Device.Frame.{
  Now, to_size, frame_clock, random_access, start_push, after_push, metadata_part, after_fill,
  fill_part, finish_frame, pushdata,
}

to_size-lt : (m : ℤ) → to_size m < 2 ^ 64
to_size-lt (pos n) = omega arith
to_size-lt (negsuc n) = omega arith

module _ (p : Proto) where
  open p use {Ctx}

  fill_part_ends :
      (dev : Dev Ctx) (ret mtu : ℤ)
      → (result : Dev Ctx × ℤ) × (fill_part p (dev, ret, mtu) ≡ some result)
  unfolding fill_part
  fill_part_ends dev ret mtu = elim (Bool-cases (ltb_ℤ (pos 0) ret)) [
    | inl going ↦
        let (g, e, left) =
          filldata_ends p dev.ctx dev.errno (to_size mtu) dev.pmt dev.pat dev.sdt dev.nulls
            (to_size-lt mtu) in
        (after_fill p dev g, rw (going, e))
    | inr stopped ↦ ((dev, ret), rw stopped)
  ]

  -- Whatever the transport answers, at every send, the function returns: neither the loop of
  -- packets nor that of null packets runs out of the rounds that it is given.
  pub pushdata_ends :
      (dev : Dev Ctx) (id : ℕ) (b : FrameBuffer) (bytes : List ℕ) (now : Now)
      → (result : ℤ × Dev Ctx) × (pushdata p dev id b bytes now ≡ some result)
  unfolding pushdata Option.bind
  pushdata_ends dev id b bytes now =
      let (s, e) =
        push_loop_ends p (random_access p dev b) (suc (length (take b.bytesused bytes)))
          (start_push p (frame_clock p dev now).0 (frame_clock p dev now).1
            (take b.bytesused bytes))
          (omega arith) in
      let (dev2, ret, mtu) = metadata_part p (after_push p (frame_clock p dev now).0 s) b now s in
      let (result, f) = fill_part_ends dev2 ret mtu in (finish_frame p id b result, rw (e, f))
