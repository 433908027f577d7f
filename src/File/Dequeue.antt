-- ===== src/File/Dequeue.antt =====
-- `sfile_dequeue`, `sfile_fd`, `sfile_start` and `sfile_stop` of src/sfile.c.
use fastvideo.Buffers.{DeviceType, input, Outcome, done, fault, endless, eagain, dequeued}
use fastvideo.Prelude.{
  ◌+◌, ℕ, [], ◌%◌, ◌∷◌, ◌^◌, List, Bool, true, ◌==◌, false, if◌then◌else◌, Option, get_elem?, none,
  set, some, length, ◌-◌, zero, suc, ◌&&◌,
}
use fastvideo.Prelude.Int.{ℤ, pos, negsuc}
use fastvideo.File.{FileProto, FileBuffer, FileDev, is_queued_file, sfile_queue}

-- What a dequeue writes through its pointers; `mem` is left as it was where the buffer has none.
pub record FileFrame : Type 0 where
  pub mem : Option (List ℕ)
  pub bytesused : ℕ
  pub flags : ℕ

abbrev is_input : DeviceType → Bool
is_input input = true
is_input _ = false

module _ (p : FileProto) where
  -- One frame more; at `maxframes` the transport starts again.
  unfoldable pub count_file : FileDev p → FileDev p
  count_file dev =
      let n : ℕ = (dev.frames + 1) % 2 ^ 32 in
      if n == dev.maxframes
      then record dev { frames = 0; ctx = (p.connect (p.close dev.ctx)).1 }
      else record dev { frames = if n == 2 ^ 32 - 1 then 0 else n }

  abbrev pub free_file : FileBuffer → FileBuffer
  free_file b = record b { state = dequeued }

  unfoldable pub dequeue_file :
      FileDev p → Option FileBuffer → Outcome (ℤ × ℕ × Option FileFrame × FileDev p)
  unfolding count_file
  dequeue_file dev none = fault
  dequeue_file dev (some b) =
      if is_queued_file b.state
      then done (
        pos dev.lastbufferid,
        0,
        some (record { mem = b.mem; bytesused = b.bytesused; flags = b.flags }),
        record (count_file dev) {
          lastbufferid = (dev.lastbufferid + 1) % length dev.buffers;
          buffers = set dev.buffers dev.lastbufferid (free_file b);
        },
      )
      else done (negsuc 0, eagain, none, dev)

  -- `sfile_dequeue`, with `errno` where it is set.
  unfoldable pub sfile_dequeue : FileDev p → Outcome (ℤ × ℕ × Option FileFrame × FileDev p)
  unfolding dequeue_file
  sfile_dequeue dev = dequeue_file dev (get_elem? dev.buffers dev.lastbufferid)

  abbrev pub any_queued : List FileBuffer → Bool
  any_queued [] = false
  any_queued (b ∷ bs) = if is_queued_file b.state then true else any_queued bs

  -- `sfile_fd`
  unfoldable pub sfile_fd : FileDev p → ℕ → ℤ
  sfile_fd dev writer =
      if (writer == 0) && is_input dev.kind && any_queued dev.buffers
      then p.fd dev.ctx
      else negsuc 0

  -- Buffers are queued from `index` on, up to the first that fails.
  unfoldable pub queue_from : ℕ → ℕ → FileDev p → Outcome (ℤ × FileDev p)
  queue_from zero index dev = done (pos 0, dev)
  queue_from (suc n) index dev = elim (sfile_queue p dev index none 0 0) [
    | fault ↦ fault
    | endless ↦ endless
    | done answer ↦
        let (ret, dev1) = answer in
        elim ret [ pos zero ↦ queue_from n (index + 1) dev1 | _ ↦ done (negsuc 0, dev1) ]
  ]

  connect_file : Outcome (ℤ × FileDev p) → Outcome (ℤ × FileDev p)
  connect_file (done (pos n, dev)) =
      let (ret, ctx) = p.connect dev.ctx in done (ret, record dev { ctx = ctx })
  connect_file (done (negsuc n, dev)) = done (negsuc n, dev)
  connect_file fault = fault
  connect_file endless = endless

  -- `sfile_start`
  unfoldable pub sfile_start : FileDev p → Outcome (ℤ × FileDev p)
  unfolding queue_from connect_file
  sfile_start dev =
      let dev1 : FileDev p = record dev { lastbufferid = 0 } in
      connect_file
        (if is_input dev.kind then queue_from (length dev.buffers) 0 dev1 else done (pos 0, dev1))

  -- `sfile_stop`
  unfoldable pub sfile_stop : FileDev p → ℤ × FileDev p
  sfile_stop dev = (pos 0, record dev { ctx = p.close dev.ctx })
