-- ===== src/File/Written.antt =====
-- The frames of src/sfile.c, from the transport and to it.
use fastvideo.Buffers.{DeviceType, input, done, queued}
use fastvideo.Prelude.{
  ◌+◌, ℕ, [], ◌%◌, ◌∷◌, List, true, ◌==◌, false, if◌then◌else◌, Option, get_elem?, none, set, some,
  length, zero, suc, ◌≡◌, ◌≤◌, ◌<◌, ap, ◌∙◌, arith, blit, leb, ltb, get_elem?-set_self,
}
use fastvideo.Prelude.Int.{pos, negsuc}
use fastvideo.File.{
  FileProto, FileBuffer, FileDev, sfile_queue, queue_file, queue_kind, received, read_frame,
  receive_into, write_back, finish, queue_file,
}
use fastvideo.File.Dequeue.{sfile_dequeue, dequeue_file, count_file, free_file}

pub get_elem?-below :
    (bs : List FileBuffer) (i : ℕ) (b : FileBuffer) → get_elem? bs i ≡ some b → i < length bs
get_elem?-below [] i b e = absurd (ground (arith, e))
get_elem?-below (x ∷ bs) zero b e = omega arith
get_elem?-below (x ∷ bs) (suc i) b e = omega (arith, get_elem?-below bs i b e)

module _ (p : FileProto) where
  -- A call with the number of a buffer is about this buffer.
  pub reaches :
      (dev : FileDev p) (id : ℕ) (b : FileBuffer) (mem : Option (List ℕ)) (size flags : ℕ)
      (kind : DeviceType)
      → get_elem? dev.buffers id ≡ some b
      → dev.kind ≡ kind
      → sfile_queue p dev id mem size flags
        ≡ queue_kind p dev id b mem (if size == 0 then b.size else size) flags kind
  unfolding sfile_queue queue_file
  reaches dev id b mem size flags kind found is_kind =
      ap
        (λ past.
          if past
          then done (negsuc 0, dev)
          else queue_file p dev id mem size flags (get_elem? dev.buffers id))
        {x = ltb (length dev.buffers) id} {y = false}
        (ground (arith, get_elem?-below dev.buffers id b found))
      ∙ ap (queue_file p dev id mem size flags) found
      ∙ ap (queue_kind p dev id b mem (if size == 0 then b.size else size) flags) is_kind

  -- Of an input without a converter: where the transport gives bytes that fit the buffer at the front of the
  -- queue, queueing this buffer and dequeueing gives it back with these bytes and their number.
  pub sfile_queue-sfile_dequeue :
      (dev : FileDev p) (b : FileBuffer) (mem bytes : List ℕ) (n flags : ℕ) (ctx : p.Ctx)
      → dev.kind ≡ input
      → dev.convert ≡ none
      → get_elem? dev.buffers dev.lastbufferid ≡ some b
      → b.mem ≡ some mem
      → p.recv dev.ctx b.size ≡ (pos (suc n), bytes, ctx)
      → length bytes ≤ length mem
      → (dev1 dev2 : FileDev p) × (sfile_queue p dev dev.lastbufferid none 0 flags
          ≡ done (pos 0, dev1))
        × (sfile_dequeue p dev1
            ≡ done (
              pos dev.lastbufferid,
              0,
              some (record { mem = some (blit mem 0 bytes); bytesused = suc n; flags = flags }),
              dev2,
            ))
  unfolding queue_kind read_frame received sfile_dequeue dequeue_file
  sfile_queue-sfile_dequeue dev b mem bytes n flags ctx is_input plain found own got fits =
      let id : ℕ = dev.lastbufferid in
      let b1 : FileBuffer = record b { mem = some (blit mem 0 bytes) } in
      let dev1 : FileDev p = finish p (record dev { ctx = ctx }) id b1 (suc n) flags in
      let b2 : FileBuffer = record b1 { bytesused = suc n; flags = flags; state = queued } in
      (
        dev1,
        record (count_file p dev1) {
          lastbufferid = (id + 1) % length dev1.buffers;
          buffers = set dev1.buffers id (free_file p b2);
        },
        reaches dev id b none 0 flags input found is_input
            ∙ ap (read_frame p dev id b b.size flags) plain
            ∙ ap (received p dev id b flags) got
            ∙ ap (λ m. receive_into p dev id b flags (pos (suc n)) ctx (write_back p m bytes)) own
            ∙ ap
                (λ ok.
                  receive_into p dev id b flags (pos (suc n)) ctx
                    (if ok then some (blit mem 0 bytes) else none))
                {x = leb (length bytes) (length mem)} {y = true} (ground (arith, fits)),
        ap (dequeue_file p dev1)
            (get_elem?-set_self dev.buffers id b2 (get_elem?-below dev.buffers id b found)),
      )
