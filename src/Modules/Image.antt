-- ===== src/Modules/Image.antt =====
-- What a `struct vsource_frame` (ga/core/vsource.h) holds while it goes through the pipelines: the part
-- that capture writes, filters convert and encoders read.
use gaminganywhere.Base.{ℕ, List}

-- `imgtype`
pub data ImageType : Type 0 where
  rgba : ImageType
  yuv420p : ImageType

-- `imgbuf` is the list of its bytes.
pub record Image : Type 0 where
  pub imgpts : ℕ
  pub imgtype : ImageType
  pub linesize : List ℕ
  pub stride : ℕ
  pub imgbuf : List ℕ
