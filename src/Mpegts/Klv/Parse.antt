-- ===== src/Mpegts/Klv/Parse.antt =====
-- A reader of the metadata packets of src/smpegts.c, written from the layout of a transport stream
-- packet, a PES packet and a KLV local set, and not from the writer.
use fastvideo.Prelude.{
  ◌∙◌, ℕ, ◌≡◌, refl, ◌∷◌, ap, ◌%◌, bit_and, ◌+◌, bit_or, ◌/◌, List, ◌*◌, [], ◌<◌, Option, ◌^◌, none,
  ◌==◌, some, ◌&&◌, Bool, if◌then◌else◌, arith, length, get_or, take, drop,
}
use fastvideo.Prelude.Bytes.{
  holds_to, same_on_bytes, and_ff, and_1f, and_0f, and_fe, and_0e, be_value, be_bytes_4, be_bytes_8,
}
use fastvideo.Mpegts.Packets.{packetlen}
use fastvideo.Mpegts.Klv.{sixteen, klv_pes, klv_packet}

-- What a metadata packet says.
pub record Metadata : Type 0 where
  pub pid : ℕ
  pub counter : ℕ
  pub pts : ℕ
  pub seq : ℕ
  pub key : List ℕ
  pub flags : ℕ
  pub timestamp : ℕ

-- The payload behind the header and the adaptation field of a packet that has both.
unfoldable pub ts_payload : List ℕ → Option (List ℕ)
ts_payload packet =
    if (get_or packet 0 0 == 0x47)
      && (length packet == packetlen)
      && (get_or packet 1 0 / 64 == 1)
      && (get_or packet 3 0 / 16 == 3)
    then some (drop (5 + get_or packet 4 0) packet)
    else none

-- The 33 bits of a time stamp in five bytes, each run of bits closed by a marker bit.
abbrev pub stamp : List ℕ → ℕ
stamp b =
    get_or b 0 0 / 2 % 8 * 2 ^ 30
    + get_or b 1 0 * 2 ^ 22
    + get_or b 2 0 / 2 * 2 ^ 15
    + get_or b 3 0 * 2 ^ 7
    + get_or b 4 0 / 2

-- The length fields of the PES packet, of its cell and of the local set are those of what follows.
abbrev pub sized : List ℕ → Bool
sized pes =
    (be_value 0 (take 2 (drop 4 pes)) == length (drop 6 pes))
    && (be_value 0 (take 2 (drop 17 pes)) == length (drop 19 pes))
    && (get_or pes 35 0 == length (drop 36 pes))

unfoldable pub pes_metadata : ℕ → ℕ → List ℕ → Option Metadata
pes_metadata pid counter pes =
    if (be_value 0 (take 4 pes) == 0x0000_01fc) && (get_or pes 8 0 == 5) && sized pes
    then some (record {
      pid = pid;
      counter = counter;
      pts = stamp (take 5 (drop 9 pes));
      seq = get_or pes 15 0;
      key = take 16 (drop 19 pes);
      flags = be_value 0 (take (get_or pes 37 0) (drop 38 pes));
      timestamp = be_value 0 (take (get_or pes 43 0) (drop 44 pes));
    })
    else none

unfoldable pub parse : List ℕ → Option Metadata
parse packet = elim (ts_payload packet) [
  | none ↦ none
  | some pes ↦
      pes_metadata (get_or packet 1 0 % 32 * 256 + get_or packet 2 0) (get_or packet 3 0 % 16) pes
]

or_40 : (x : ℕ) → bit_or 0x40 (bit_and x 0x1f) ≡ 64 + x % 32
unfolding holds_to
or_40 x =
    ap (bit_or 0x40) (and_1f x)
    ∙ ap (bit_or 0x40) (omega arith)
    ∙ same_on_bytes (λ y. bit_or 0x40 (y % 32)) (λ y. 64 + y % 32) refl (x % 32) (omega arith)
    ∙ omega arith

or_30 : (x : ℕ) → bit_or 0x30 (bit_and x 0x0f) ≡ 48 + x % 16
unfolding holds_to
or_30 x =
    ap (bit_or 0x30) (and_0f x)
    ∙ ap (bit_or 0x30) (omega arith)
    ∙ same_on_bytes (λ y. bit_or 0x30 (y % 16)) (λ y. 48 + y % 16) refl (x % 16) (omega arith)
    ∙ omega arith

or_21 : (x : ℕ) → bit_or 0x21 (bit_and x 0x0e) ≡ 33 + x / 2 % 8 * 2
unfolding holds_to
or_21 x =
    ap (bit_or 0x21) (and_0e x)
    ∙ ap (bit_or 0x21) (omega arith)
    ∙ same_on_bytes (λ y. bit_or 0x21 (y % 8 * 2)) (λ y. 33 + y % 8 * 2) refl (x / 2 % 8)
        (omega arith)
    ∙ omega arith

or_01 : (x : ℕ) → bit_or (bit_and x 0xfe) 0x01 ≡ x / 2 % 128 * 2 + 1
unfolding holds_to
or_01 x =
    ap (λ t. bit_or t 0x01) (and_fe x)
    ∙ ap (λ t. bit_or t 0x01) (omega arith)
    ∙ same_on_bytes (λ y. bit_or (y % 128 * 2) 0x01) (λ y. y % 128 * 2 + 1) refl (x / 2 % 128)
        (omega arith)
    ∙ omega arith

-- The five bytes of the time stamp hold it.
stamp-klv :
    (pts : ℕ)
    → pts < 2 ^ 32
    → stamp (
        bit_or 0x21 (bit_and (pts / 2 ^ 29) 0x0e)
        ∷ bit_and (pts / 2 ^ 22) 0xff
        ∷ bit_or (bit_and (pts / 2 ^ 14) 0xfe) 0x01
        ∷ bit_and (pts / 2 ^ 7) 0xff
        ∷ bit_or (bit_and (pts * 2 % 2 ^ 32) 0xfe) 0x01
        ∷ [])
      ≡ pts
stamp-klv pts h = omega (
  arith,
  or_21 (pts / 2 ^ 29),
  and_ff (pts / 2 ^ 22),
  or_01 (pts / 2 ^ 14),
  and_ff (pts / 2 ^ 7),
  or_01 (pts * 2 % 2 ^ 32),
)

module _ (pid klvcc pts seq : ℕ) (key : ℕ → ℕ) (flags timestamp : ℕ) where
  -- A reader gets back from the packet what the code put into it: thirteen bits of the PID, four of
  -- the counter, and the rest whole.
  pub parse-klv_packet :
      pts < 2 ^ 32
      → flags < 2 ^ 32
      → timestamp < 2 ^ 64
      → parse (klv_packet pid klvcc (klv_pes pts seq key flags timestamp))
        ≡ some (record {
          pid = pid % 2 ^ 13;
          counter = klvcc % 16;
          pts = pts;
          seq = seq;
          key = sixteen key;
          flags = flags;
          timestamp = timestamp;
        })
  unfolding parse ts_payload pes_metadata klv_packet klv_pes
  parse-klv_packet hp hf ht = ground (
    arith,
    or_40 (pid / 2 ^ 8),
    and_ff pid,
    or_30 klvcc,
    stamp-klv pts hp,
    be_bytes_4 flags hf,
    be_bytes_8 timestamp ht,
  )
