-- ===== src/File.antt =====
-- The file device of src/sfile.c, over a transport that the configuration chooses; its buffers have memory of
-- their own, not a dma buffer's.
pub mod Dequeue
pub mod Written
pub mod Sent
use fastvideo.Buffers.{
  BufferState, queued, dequeued, is_busy, DeviceType, input, output, transfer, control, Outcome,
  done, fault, endless, eagain,
}
use fastvideo.Prelude.{
  ◌+◌, ℕ, [], ◌%◌, ◌∷◌, ◌^◌, List, ltb, Bool, leb, true, ◌==◌, false, if◌then◌else◌, Option,
  get_elem?, none, set, some, length, blit, take, zero, suc,
}
use fastvideo.Prelude.Int.{ℤ, pos, negsuc}
use fastvideo.Mpegts.Transport.{proto_more}
use fastvideo.Convert.{fourcc}

-- The part of `Proto_t` that the device calls; `recv` gives the bytes that it writes.
pub record FileProto : Type 1 where
  pub Ctx : Type 0
  pub connect : Ctx → ℤ × Ctx
  pub close : Ctx → Ctx
  pub fd : Ctx → ℤ
  pub send : Ctx → List ℕ → ℕ → ℤ × Ctx
  pub recv : Ctx → ℕ → ℤ × List ℕ × Ctx

-- `FrameBuffer_t`
pub record FileBuffer : Type 0 where
  pub mem : Option (List ℕ)
  pub size : ℕ
  pub bytesused : ℕ
  pub flags : ℕ
  pub state : BufferState

-- What `convert->ops.convert` stands for: the destination and the number returned, `none` for a fault.
abbrev pub FileConvert : Type 0
FileConvert = List ℕ → List ℕ → ℕ → Option (List ℕ × ℕ)

-- `File_t`
pub record FileDev (p : FileProto) : Type 0 where
  pub kind : DeviceType
  pub buffers : List FileBuffer
  pub lastbufferid : ℕ
  pub header : List ℕ
  pub convert : Option FileConvert
  pub outmem : List ℕ
  pub outsize : ℕ
  pub frames : ℕ
  pub maxframes : ℕ
  pub ctx : p.Ctx

abbrev pub is_queued_file : BufferState → Bool
is_queued_file queued = true
is_queued_file _ = false

-- The first `size` bytes of memory.
abbrev pub bytes_of : Option (List ℕ) → ℕ → Option (List ℕ)
bytes_of none size = none
bytes_of (some mem) size = if leb size (length mem) then some (take size mem) else none

-- What a transport or a converter wrote into memory.
abbrev pub written_to : List ℕ → List ℕ → Option (List ℕ)
written_to mem bytes = if leb (length bytes) (length mem) then some (blit mem 0 bytes) else none

module _ (p : FileProto) where
  -- The buffer is queued with what the transport returned.
  abbrev pub finish : FileDev p → ℕ → FileBuffer → ℕ → ℕ → FileDev p
  finish dev index b used flags = record dev {
    buffers = set dev.buffers index (record b { bytesused = used; flags = flags; state = queued });
  }

  abbrev pub sent : FileDev p → ℕ → FileBuffer → ℕ → ℤ × p.Ctx → Outcome (ℤ × FileDev p)
  sent dev index b flags (pos used, ctx) =
      done (pos 0, finish (record dev { ctx = ctx }) index b used flags)
  sent dev index b flags (negsuc n, ctx) = done (negsuc 0, record dev { ctx = ctx })

  -- The frame behind the header, unless the header's `send` failed.
  abbrev pub send_behind : FileDev p → List ℕ → ℤ × p.Ctx → ℤ × p.Ctx
  send_behind dev bytes (pos n, ctx) = p.send ctx bytes 0
  send_behind dev bytes (negsuc n, ctx) = (negsuc n, ctx)

  unfoldable pub send_frame : FileDev p → List ℕ → ℤ × p.Ctx
  send_frame dev bytes =
      send_behind dev bytes
        (if length dev.header == 0 then (pos 0, dev.ctx) else p.send dev.ctx dev.header proto_more)

  unfoldable pub write_bytes :
      FileDev p → ℕ → FileBuffer → ℕ → Option (List ℕ) → Outcome (ℤ × FileDev p)
  unfolding send_frame
  write_bytes dev index b flags none = fault
  write_bytes dev index b flags (some bytes) = sent dev index b flags (send_frame dev bytes)

  -- The frame is converted into `outmem`, from where it is sent.
  unfoldable pub write_converted :
      FileDev p → ℕ → FileBuffer → ℕ → Option (List ℕ × ℕ) → Outcome (ℤ × FileDev p)
  unfolding write_bytes
  write_converted dev index b flags none = fault
  write_converted dev index b flags (some (out, size)) =
      write_bytes (record dev { outmem = out }) index b flags (bytes_of (some out) size)

  unfoldable pub converting : FileConvert → List ℕ → ℕ → Option (List ℕ) → Option (List ℕ × ℕ)
  converting convert outmem size none = none
  converting convert outmem size (some mem) = convert mem outmem size

  -- The part of `sfile_queue` for an output.
  unfoldable pub write_frame :
      FileDev p
      → ℕ
      → FileBuffer
      → Option (List ℕ)
      → ℕ
      → ℕ
      → Option FileConvert
      → Outcome (ℤ × FileDev p)
  unfolding write_bytes write_converted converting
  write_frame dev index b mem used flags none = write_bytes dev index b flags (bytes_of mem used)
  write_frame dev index b mem used flags (some convert) =
      write_converted dev index b flags (converting convert dev.outmem used mem)

  abbrev pub or_own : Option (List ℕ) → Option (List ℕ) → Option (List ℕ)
  or_own none own = own
  or_own (some mem) own = some mem

  abbrev pub write_back : Option (List ℕ) → List ℕ → Option (List ℕ)
  write_back none bytes = none
  write_back (some mem) bytes = written_to mem bytes

  abbrev pub receive_into :
      FileDev p → ℕ → FileBuffer → ℕ → ℤ → p.Ctx → Option (List ℕ) → Outcome (ℤ × FileDev p)
  receive_into dev index b flags ret ctx none = fault
  receive_into dev index b flags (pos (suc n)) ctx (some mem) =
      done
        (pos 0, finish (record dev { ctx = ctx }) index (record b { mem = some mem }) (suc n) flags)
  receive_into dev index b flags ret ctx (some mem) = done (
    negsuc 0,
    record dev { ctx = ctx; buffers = set dev.buffers index (record b { mem = some mem }) },
  )

  -- The part for an input without a converter: `recv` writes to the buffer.
  unfoldable pub received :
      FileDev p → ℕ → FileBuffer → ℕ → ℤ × List ℕ × p.Ctx → Outcome (ℤ × FileDev p)
  received dev index b flags (ret, bytes, ctx) =
      receive_into dev index b flags ret ctx (write_back b.mem bytes)

  -- The bytes received in `outmem` are converted into the buffer.
  unfoldable pub converted_in :
      FileDev p → ℕ → FileBuffer → ℕ → Option (List ℕ × ℕ) → Outcome (ℤ × FileDev p)
  converted_in dev index b flags none = fault
  converted_in dev index b flags (some (mem, zero)) =
      done (negsuc 0, record dev { buffers = set dev.buffers index (record b { mem = some mem }) })
  converted_in dev index b flags (some (mem, suc n)) =
      done (pos 0, finish dev index (record b { mem = some mem }) (suc n) flags)

  convert_out : FileConvert → List ℕ → ℕ → Option (List ℕ) → Option (List ℕ × ℕ)
  convert_out convert out size none = none
  convert_out convert out size (some mem) = convert out mem size

  -- The part for an input with a converter.
  unfoldable pub received_converted :
      FileDev p → FileConvert → ℕ → FileBuffer → ℕ → ℤ × List ℕ × p.Ctx → Outcome (ℤ × FileDev p)
  unfolding converted_in convert_out
  received_converted dev convert index b flags (ret, bytes, ctx) =
      elim (written_to dev.outmem bytes) [
        | none ↦ fault
        | some out ↦
            let dev1 : FileDev p = record dev { outmem = out; ctx = ctx } in
            elim ret [
              | pos (suc n) ↦
                  converted_in dev1 index b flags (convert_out convert out (suc n) b.mem)
              | _ ↦ done (negsuc 0, dev1)
            ]
      ]

  unfoldable pub read_frame :
      FileDev p → ℕ → FileBuffer → ℕ → ℕ → Option FileConvert → Outcome (ℤ × FileDev p)
  unfolding received received_converted
  read_frame dev index b used flags none = received dev index b flags (p.recv dev.ctx used)
  read_frame dev index b used flags (some convert) =
      received_converted dev convert index b flags (p.recv dev.ctx dev.outsize)

  unfoldable pub queue_kind :
      FileDev p → ℕ → FileBuffer → Option (List ℕ) → ℕ → ℕ → DeviceType → Outcome (ℤ × FileDev p)
  unfolding write_frame read_frame
  queue_kind dev index b mem used flags output =
      write_frame dev index b (or_own mem b.mem) used flags dev.convert
  queue_kind dev index b mem used flags input = read_frame dev index b used flags dev.convert
  queue_kind dev index b mem used flags _ = done (
    pos 0,
    record dev { buffers = set dev.buffers index (record b { flags = flags; state = queued }) },
  )

  unfoldable pub queue_file :
      FileDev p → ℕ → Option (List ℕ) → ℕ → ℕ → Option FileBuffer → Outcome (ℤ × FileDev p)
  unfolding queue_kind
  queue_file dev index mem bytesused flags none = fault
  queue_file dev index mem bytesused flags (some b) =
      queue_kind dev index b mem (if bytesused == 0 then b.size else bytesused) flags dev.kind

  -- `sfile_queue`
  unfoldable pub sfile_queue : FileDev p → ℕ → Option (List ℕ) → ℕ → ℕ → Outcome (ℤ × FileDev p)
  unfolding queue_file
  sfile_queue dev index mem bytesused flags =
      if ltb (length dev.buffers) index
      then done (negsuc 0, dev)
      else queue_file dev index mem bytesused flags (get_elem? dev.buffers index)
