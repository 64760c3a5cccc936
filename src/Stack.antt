-- ===== src/Stack.antt =====
-- The compose stacks of biz/: what is stored of them, and the parts of the code that work on it.
pub mod Version
pub mod Rewrite
pub mod Mirror
pub mod Manage
pub mod Trace
use swirl_evo.Common.{ℕ, Bool, List, Text}

pub record ComposeStack : Type 0 where
  pub id : Text
  pub host_id : Text
  pub name : Text
  pub content : Text
  pub env_file : Text
  pub status : Text
  pub error_message : Text
  pub last_warnings : List Text
  pub disable_registry_cache : Bool
  pub created_at : ℕ
  pub updated_at : ℕ
  pub created_by : Text
  pub updated_by : Text
