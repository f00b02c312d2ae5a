-- ===== src/Storage/Reply.antt =====
-- What a write handler of `pkg/storage` returns: the two byte counts and the response. The bytes
-- of a response are its protobuf encoding, written by generated code; the message is kept here.
use busybee.Prelude.{ℕ, Bool, List, Bytes}
use busybee.Prelude.Int.{ℤ, pos}

-- `metapb.IDValue`
pub record IdValue : Type 0 where
  pub value : Bytes
  pub type : Bytes

pub data Response : Type 0 where
  -- `resp.Value` is left unset
  unset : Response
  -- `rpcpb.EmptyRespBytes`
  empty : Response
  -- `rpcpb.TrueRespBytes` and `rpcpb.FalseRespBytes`, or a `BoolResponse`
  boolean : Bool → Response
  -- `Uint32RangeResponse`
  id_range : ℕ → ℕ → Response
  -- `Uint64Response`
  count : ℕ → Response
  -- `Uint32SliceResponse`
  ids : List ℕ → Response
  -- `IDSet`
  id_set : List IdValue → Response

pub record Reply : Type 0 where
  pub written_bytes : ℕ
  pub changed_bytes : ℤ
  pub response : Response

abbrev pub reply : ℕ → ℤ → Response → Reply
reply w c r = record { written_bytes = w; changed_bytes = c; response = r }

-- `return 0, 0, resp`
abbrev pub unchanged : Response → Reply
unchanged r = reply 0 (pos 0) r
