-- ===== src/Convert.antt =====
-- The converters of pixel formats, src/sconvert_NV12toR8.c, src/sconvert_BG10toR16.c and
-- src/sconvert_passthrough.c: the part of a device's configuration that they read.
pub mod Gcd
pub mod Nv12
pub mod Bayer
pub mod Plain
use fastvideo.Prelude.{ℕ, ◌+◌, ◌*◌, ◌^◌}

-- `FOURCC`, of the codes of four characters.
abbrev pub fourcc : ℕ → ℕ → ℕ → ℕ → ℕ
fourcc a b c d = a + b * 2 ^ 8 + c * 2 ^ 16 + d * 2 ^ 24

-- `DeviceConf_t`
pub record DeviceConf : Type 0 where
  pub format : ℕ
  pub width : ℕ
  pub height : ℕ
  pub stride : ℕ

-- `Passthrough_config_t`
pub record Config : Type 0 where
  pub parent : DeviceConf
  pub transfer : DeviceConf
