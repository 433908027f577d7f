-- ===== src/File/Sent.antt =====
-- What src/sfile.c writes to a transport that takes all bytes.
use mathlib.Core.List.{append_assoc}
use fastvideo.Buffers.{output, done, queued}
use fastvideo.Prelude.{
  ℕ, [], ◌∷◌, List, true, ◌==◌, false, if◌then◌else◌, get_elem?, none, set, some, length, ◌++◌, ◌≡◌,
  ◌≢◌, ◌≤◌, ap, ◌∙◌, arith, leb, take, get_elem?-set_self,
}
use fastvideo.Prelude.Int.{pos}
use fastvideo.Mpegts.Transport.{proto_more}
use fastvideo.File.{
  FileProto, FileBuffer, FileDev, sfile_queue, queue_kind, write_frame, write_bytes, send_frame,
  send_behind, sent,
}
use fastvideo.File.Written.{reaches, get_elem?-below}

-- Each `send` takes all that it is given.
pub record IsFileReliable (p : FileProto) : Type 0 where
  pub taken : p.Ctx → List ℕ
  pub after : p.Ctx → List ℕ → ℕ → p.Ctx
  pub sends :
      (c : p.Ctx) (bytes : List ℕ) (flags : ℕ)
      → p.send c bytes flags ≡ (pos (length bytes), after c bytes flags)
  pub takes :
      (c : p.Ctx) (bytes : List ℕ) (flags : ℕ) → taken (after c bytes flags) ≡ taken c ++ bytes

module _ (p : FileProto) (r : IsFileReliable p) where
  send_frame-taken :
      (dev : FileDev p) (bytes : List ℕ)
      → (ctx : p.Ctx) × (send_frame p dev bytes ≡ (pos (length bytes), ctx))
        × (r.taken ctx ≡ r.taken dev.ctx ++ (dev.header ++ bytes))
  unfolding send_frame
  send_frame-taken dev bytes = by_header dev.header
    where
      by_header :
          (header : List ℕ)
          → (ctx : p.Ctx) × (send_behind p dev bytes
                (if length header == 0 then (pos 0, dev.ctx) else p.send dev.ctx header proto_more)
              ≡ (pos (length bytes), ctx))
            × (r.taken ctx ≡ r.taken dev.ctx ++ (header ++ bytes))
      by_header [] = (r.after dev.ctx bytes 0, r.sends dev.ctx bytes 0, r.takes dev.ctx bytes 0)
      by_header (h ∷ hs) =
          let c1 : p.Ctx = r.after dev.ctx (h ∷ hs) proto_more in
          (
            r.after c1 bytes 0,
            ap
                  (λ b.
                    send_behind p dev bytes
                      (if b then (pos 0, dev.ctx) else p.send dev.ctx (h ∷ hs) proto_more))
                  {x = length (h ∷ hs) == 0} {y = false} (ground arith)
                ∙ ap (send_behind p dev bytes) (r.sends dev.ctx (h ∷ hs) proto_more)
                ∙ r.sends c1 bytes 0,
            r.takes c1 bytes 0
                ∙ ap (λ l. l ++ bytes) (r.takes dev.ctx (h ∷ hs) proto_more)
                ∙ append_assoc (r.taken dev.ctx) (h ∷ hs) bytes,
          )

  -- An output without a converter, over a transport that takes all bytes, writes the header and the bytes of the
  -- frame that is queued, and these only; the buffer is queued with their number.
  pub sfile_queue-taken :
      (dev : FileDev p) (id : ℕ) (b : FileBuffer) (mem : List ℕ) (size flags : ℕ)
      → dev.kind ≡ output
      → dev.convert ≡ none
      → get_elem? dev.buffers id ≡ some b
      → size ≢ 0
      → size ≤ length mem
      → (dev1 : FileDev p) × (sfile_queue p dev id (some mem) size flags ≡ done (pos 0, dev1))
        × (r.taken dev1.ctx ≡ r.taken dev.ctx ++ (dev.header ++ take size mem))
        × (get_elem? dev1.buffers id
            ≡ some (record b { bytesused = length (take size mem); flags = flags; state = queued }))
  unfolding queue_kind write_frame write_bytes
  sfile_queue-taken dev id b mem size flags is_output plain found some_bytes inside =
      let (ctx, ran, took) = send_frame-taken dev (take size mem) in
      (
        record dev {
          ctx = ctx;
          buffers =
              set dev.buffers id
                (record b { bytesused = length (take size mem); flags = flags; state = queued });
        },
        reaches p dev id b (some mem) size flags output found is_output
            ∙ ap (λ n. write_frame p dev id b (some mem) n flags dev.convert)
                {x = if size == 0 then b.size else size} {y = size} (ground (arith, some_bytes))
            ∙ ap (write_frame p dev id b (some mem) size flags) plain
            ∙ ap (λ ok. write_bytes p dev id b flags (if ok then some (take size mem) else none))
                {x = leb size (length mem)} {y = true} (ground (arith, inside))
            ∙ ap (sent p dev id b flags) ran,
        took,
        get_elem?-set_self dev.buffers id
            (record b { bytesused = length (take size mem); flags = flags; state = queued })
            (get_elem?-below dev.buffers id b found),
      )
