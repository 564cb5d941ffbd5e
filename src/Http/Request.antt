-- ===== src/Http/Request.antt =====
-- `header`, `request` and `reply` of ad_system/server3/.
use learning_cpp.Prelude.{ℕ, List, Bytes}

pub record Header : Type 0 where
  pub name : Bytes
  pub value : Bytes

-- The versions are the bit patterns of `int`s.
pub record Request : Type 0 where
  pub method : Bytes
  pub uri : Bytes
  pub http_version_major : ℕ
  pub http_version_minor : ℕ
  pub headers : List Header
