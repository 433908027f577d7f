-- ===== src/Lib.antt =====
-- fastvideo: cameras, converters and outputs that hand video buffers to one another. A source device
-- (src/sv4l2.c, src/sfile.c, src/stile.c and others) fills a buffer, src/fastvideo.c takes it out of the
-- source (`dequeue`) and into the next device (`queue`), and takes it back when it is consumed. Each
-- device is a table of operations (create, requestbuffer, queue, dequeue, start, stop, destroy) over a
-- state of its own. This development is about the transfer itself, about the stage in the middle of a pipe,
-- src/spassthrough.c, with its converters, about one output, the MPEG transport stream multiplexer of
-- src/smpegts.c, about the tiles of src/stile.c and about the cameras of src/sv4l2.c. The multiplexer cuts the H264 frame of a queued buffer
-- into packets of 188 bytes and sends them through a transport, a table of functions (`Proto_t`) that the
-- configuration chooses. The tiling device cuts a frame into tiles, which a second device reads.
--
-- Prelude: lists, Boolean tests, C's signed integers and the bit operations over the native numbers.
-- Crc: `crc32_table` and `crc32` of src/smpegts.c. Crc/Bitwise has CRC-32 one bit at a time.
-- Mpegts: the configuration (`MPEG_TSConf_t`) and the header of a packet (`MPEGHeader_t`).
--   Packets: `default_pat`, `default_pmt`, `default_sdt`, `nullpacket`.
--   Psi: `_client_klvpmt` and the blocks of `mpegts_create` that set up the PAT, the PMT and the SDT.
--     Psi/Section says what a receiver asks of such a packet.
--   Clock: `_mpegts_smoothclock`, with the `int32_t` and `uint32_t` wrap written out.
--   Transport: the functions of `Proto_t` that the multiplexer calls, a parameter of all that follows.
--   Klv: `_client_pushklv`. Klv/Parse is a reader of its packet, written from the packet's layout.
--   Push: the `while` loop of `_client_pushdata`, one function for each `send` of its body, in the order of
--     the body. Push/Packet has the packet of a round in closed form, Push/Stream the reader of packets.
--   Fill: `_client_filldata`.
--   Device: `Dev_t`, `mpegts_create`, `mpegts_requestbuffer`; Device/Frame: `_client_pushdata` as a whole;
--     Device/Ops: `mpegts_queue`, `mpegts_dequeue`, `mpegts_start`, `mpegts_stop`.
-- Tile: the grid of tiles that `stile_create` of src/stile.c lays over a frame. Tile/Rows: `stile_duplicate` and
--   `stile_start` as far as the types and strides go, and what `stile_queue` calls the converter with for a row.
--   The converter itself is left out; whether it accepts the configuration, and its bytes per pixel, are
--   arguments. Tile/Centred is about the grid, Tile/Rows/Unset about the strides. Tile/Ring: the ring of
--   slots between `stile_queue` and the reader's `stile_dequeue`, Tile/Ring/Fifo the queue it stands for.
-- Buffers: the states of a buffer, the types of a device and the error numbers, of src/fastvideo.h.
-- Transfer: `main_transferbuffer` and the passes of `main_loop` in src/fastvideo.c, over devices given by their
--   operations (`FastVideoDevice_ops_t`) on a shared state. Transfer/Moves has the loop as a relation of steps.
-- Passthrough: `Passthrough_t` of src/spassthrough.c. Passthrough/Queue: `_passthrough_copy`,
--   `spassthrough_queue_output`; Passthrough/Dequeue: `spassthrough_dequeue_output`, both operations of the
--   duplicated device and `spassthrough_start`. Passthrough/Linked, Fifo and Order are about the list that
--   is linked through the buffers, Enqueue, Leave, Drained, Copies, Targets and Converter about the operations.
-- Stage: the main device of src/spassthrough.c as a device of src/fastvideo.c's passes.
-- Convert: the converters that the stage calls. Convert/Gcd and Convert/Nv12: src/sconvert_NV12toR8.c;
--   Convert/Bayer: src/sconvert_BG10toR16.c; Convert/Plain: src/sconvert_passthrough.c. Rows: the loop over
--   rows that they share.
-- Chain: the lists of src/sfastvideo.c in a heap of nodes, Chain/Remove the calls that take an entry out.
--   Chain/Linked and Chain/Extend say what a well-linked list is, Chain/Insert, Chain/Loops and Chain/Built
--   are about its growth and the loops over it.
-- File: `sfile_queue` of src/sfile.c over the transport's functions, File/Dequeue its other operations. File/Written and
--   File/Sent are about the bytes read and written.
-- Camera: src/sv4l2.c. Camera has `_v4l2_getbuftype`, Camera/Capable `_v4l2_devicecapabilities`, Camera/Kind what the two
--   choose together. Camera/Driver has the kernel's formats, Camera/Size the frame sizes, Camera/Format the formats,
--   Camera/Rate the rates and Camera/Prepare `_sv4l2_prepare`, which calls them. Camera/Memory has the buffers,
--   Camera/Request, Request/Link and Request/Ask `sv4l2_requestbuffer` and what it calls; Request/Export is
--   `sv4l2_requestbuffer_dmabuf`, Request/Destroy `sv4l2_destroy`. Request/Plain, Granted, Exported, Shared and Unmapped
--   are about devices with one plane. Camera/Stream has queue,
--   dequeue, start and stop; Stream/Ready says what is asked of the kernel's queue. The calls of the kernel are records
--   of functions over a state.
-- Tests: concrete runs.
--
-- Words: a byte is a number below 256; `uint32_t` and `size_t` keep their `% 2 ^ 32` and `% 2 ^ 64`; the bit
-- fields of a header are fields of a record, laid out from the lowest bit as the compilers of the
-- targets do. The buffer's memory is a list of bytes, `none` for a null pointer; the bytes of a frame are
-- the first `bytesused` of it, so that a frame longer than its memory is read only as far as the memory
-- goes. `errno` is a field of the state, set by `send` and by the operations. The counter of `sv4l2_queue` is the pattern
-- of an `int` that wraps around, the addresses and descriptors of a camera's buffers are numbers, and a list of sizes
-- or formats stands for the calls that enumerate them, up to the first that fails.
--
-- Fuel: the packet loop is given one round more than the frame has bytes, since each round that goes on
-- takes at least a byte; the loop of null packets one round more than the datagram has bytes left. The result
-- is `none` only where the fuel is used up. The walk to the end of the passthrough's list is given one round more
-- than there are buffers; `_gcd` one more than its second number, which is smaller in each round; a loop over a
-- list any number above that of its entries. An operation on buffers gives `done` with its result, `fault`
-- where the C code reads outside of a table or through a null pointer, and `endless` where a loop of it
-- does not end.
--
-- Not modelled: the sets of descriptors and `select` of `main_loop`, whose answer is an argument of the passes, and its
-- timer; the branch device (`MODE_TEE`) of the passthrough stage, the buffers that its `requestbuffer` makes, and
-- its configuration; the converters' variants in NEON assembler; `fastvideolist_destroy`, the table of protocols
-- and the shared memory of src/sfastvideo.c; the dma buffers, the headers of images and the request of buffers of
-- src/sfile.c; `sv4l2_create` and `sv4l2_duplicate`, the controls, crop and rotation, the sub-devices
-- and the configuration of src/sv4l2.c, whose formats are those with one plane here, and whose descriptors the kernel
-- gives; the display, OpenGL, inference and DVB devices, which are calls of other libraries; logging; `mpegts_loadjsonconfiguration`, `mpegts_createconfig` and the registration of the
-- device (configuration files); `mpegts_fd` and `mpegts_destroy`; the code under `#if 0`, `DUMPDATA` and the
-- unset variants of `GLOBAL_PCR`, `PADDING_NULLPACKET`; the memory synchronisation of dma buffers (`ioctl`), of
-- which only the mapping has an effect here; `connect`, `close`, `flush` and `send` of the transports
-- themselves, which are parameters; the buffers of the tiling device's source side and the setting up of its
-- ring. The null packet is one for all devices in C; here it is a field of
-- the one device.
pub mod Prelude
pub mod Buffers
pub mod Crc
pub mod Mpegts
pub mod Passthrough
pub mod Rows
pub mod Convert
pub mod Transfer
pub mod Stage
pub mod Chain
pub mod File
pub mod Camera
pub mod Tile
mod Tests
