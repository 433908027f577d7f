-- ===== src/Tests/Files.antt =====
-- Concrete runs of the file device.
use fastvideo.Buffers.{input, output, queued, dequeued, done}
use fastvideo.Prelude.{
  ℕ, [], ◌∷◌, List, none, ◌++◌, ◌≡◌, some, refl, length, arith, get_elem?, take, drop,
}
use fastvideo.Prelude.Int.{pos}
use fastvideo.File.{FileProto, FileBuffer, FileDev, sfile_queue}
use fastvideo.File.Dequeue.{sfile_dequeue}
use fastvideo.File.Written.{sfile_queue-sfile_dequeue}
use fastvideo.File.Sent.{IsFileReliable, sfile_queue-taken}

-- A file as the bytes that are still to be read, or that were written.
abbrev tape : FileProto
tape = record {
  Ctx = List ℕ;
  connect = λ c. (pos 0, c);
  close = λ c. c;
  fd = λ c. pos 5;
  send = λ c bytes flags. (pos (length bytes), c ++ bytes);
  recv = λ c size. (pos (length (take size c)), take size c, drop size c);
}

abbrev file_buffer : FileBuffer
file_buffer = record {
  mem = some (0 ∷ 0 ∷ []);
  size = 2;
  bytesused = 0;
  flags = 0;
  state = dequeued;
}

abbrev reader : FileDev tape
reader = record {
  kind = input;
  buffers = file_buffer ∷ file_buffer ∷ [];
  lastbufferid = 1;
  header = [];
  convert = none;
  outmem = [];
  outsize = 0;
  frames = 0;
  maxframes = 0;
  ctx = 7 ∷ 8 ∷ 9 ∷ [];
}

abbrev writer : FileDev tape
writer = record reader { kind = output; header = 80 ∷ 55 ∷ []; ctx = [] }

sfile_queue-sfile_dequeue_example :
    (dev1 dev2 : FileDev tape) × (sfile_queue tape reader 1 none 0 3 ≡ done (pos 0, dev1))
    × (sfile_dequeue tape dev1
        ≡ done
            (pos 1, 0, some (record { mem = some (7 ∷ 8 ∷ []); bytesused = 2; flags = 3 }), dev2))
sfile_queue-sfile_dequeue_example =
    sfile_queue-sfile_dequeue tape reader file_buffer (0 ∷ 0 ∷ []) (7 ∷ 8 ∷ []) 1 3 (9 ∷ []) refl
      refl refl refl refl (omega arith)

abbrev tape_reliable : IsFileReliable tape
tape_reliable = record {
  taken = λ c. c;
  after = λ c bytes flags. c ++ bytes;
  sends = λ c bytes flags. refl;
  takes = λ c bytes flags. refl;
}

sfile_queue-taken_example :
    (dev1 : FileDev tape) × (sfile_queue tape writer 0 (some (4 ∷ 5 ∷ 6 ∷ [])) 2 1
      ≡ done (pos 0, dev1))
    × (dev1.ctx ≡ 80 ∷ 55 ∷ 4 ∷ 5 ∷ [])
    × (get_elem? dev1.buffers 0
        ≡ some (record file_buffer { bytesused = 2; flags = 1; state = queued }))
sfile_queue-taken_example =
    sfile_queue-taken tape tape_reliable writer 0 file_buffer (4 ∷ 5 ∷ 6 ∷ []) 2 1 refl refl refl
      (λ e. absurd (omega (arith, e))) (omega arith)
