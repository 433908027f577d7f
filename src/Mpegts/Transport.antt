-- ===== src/Mpegts/Transport.antt =====
-- The transport that the multiplexer writes to, `Proto_t` of src/fastvideo.h: a table of functions
-- that the configuration chooses, over a context of its own.
use fastvideo.Prelude.{ℕ, ◌≡◌, ◌++◌, List, length}
use fastvideo.Prelude.Int.{ℤ, pos}

-- `Proto_Flags_t`
abbrev pub proto_more : ℕ
proto_more = 1

abbrev pub proto_started : ℕ
proto_started = 2

-- What `send` gives back: its value, `errno` behind the call, the context.
pub record Sent (Ctx : Type 0) : Type 0 where
  pub ret : ℤ
  pub errno : ℕ
  pub ctx : Ctx

pub record Proto : Type 1 where
  pub Ctx : Type 0
  pub connect : Ctx → ℤ × Ctx
  pub close : Ctx → Ctx
  pub mtu : Ctx → ℕ
  pub fd : Ctx → ℤ
  pub send : Ctx → List ℕ → ℕ → Sent Ctx
  pub flush : Ctx → Ctx

-- A transport that takes all that it is given, as a socket without errors does. `taken` is
-- what it has taken so far.
pub record IsReliable (p : Proto) : Type 0 where
  pub taken : p.Ctx → List ℕ
  pub all_taken :
      (c : p.Ctx) (bytes : List ℕ) (flags : ℕ)
      → ((p.send c bytes flags).ret ≡ pos (length bytes))
        × (taken (p.send c bytes flags).ctx ≡ taken c ++ bytes)
