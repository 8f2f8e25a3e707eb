-- ===== src/Grpc.antt =====
-- The gRPC status codes that the two services exchange, and what an RPC handler gives. The codes are
-- those of the gRPC standard, which `@grpc/grpc-js` names in `status`.
use nest_js_ecomm_rd.Base.{ℕ, String}

abbrev pub invalid_argument : ℕ
invalid_argument = 3

abbrev pub deadline_exceeded : ℕ
deadline_exceeded = 4

abbrev pub not_found : ℕ
not_found = 5

abbrev pub already_exists : ℕ
already_exists = 6

abbrev pub failed_precondition : ℕ
failed_precondition = 9

abbrev pub unavailable : ℕ
unavailable = 14

-- A handler returns a message or throws an `RpcException`.
pub data Rpc (A : Type 0) : Type 0 where
  reply : A → Rpc A
  raise : (code : ℕ) (message : String) → Rpc A
