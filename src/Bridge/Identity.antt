-- ===== src/Bridge/Identity.antt =====
-- What identifies a request: the hash over its fields (mt5_bridge/store.py) and the comment tag in
-- the terminal (mt5_bridge/identity.py). SHA-256 and the JSON that it is taken of are hashlib's and
-- json's, so the two functions are parameters.
use tradingia.Prelude.{ℕ}
use tradingia.Execution.Domain.{Decimal, Name, Side}

-- the fields over which compute_request_fingerprint hashes, with the action they stand for
pub data SemanticFields : Type 0 where
  open_fields : Name → Side → Decimal → SemanticFields
  close_fields : ℕ → SemanticFields

pub record Hashing : Type 0 where
  pub sha256_of_fields : SemanticFields → ℕ
  pub order_tag : Name → Name

module _ (h : Hashing) where
  unfoldable pub compute_request_fingerprint : SemanticFields → ℕ
  compute_request_fingerprint fields = h.sha256_of_fields fields

  -- "TIA:" and eight digits are twelve characters, so the limit of 31 never raises
  unfoldable pub build_mt5_comment : Name → Name
  build_mt5_comment id = h.order_tag id
