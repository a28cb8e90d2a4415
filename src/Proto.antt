-- ===== src/Proto.antt =====
-- The messages of proto/schema.proto that the servers exchange, as proto/schema.pb.go declares
-- them, and the errors of a call. A value is a list of bytes.
use committer.Prelude.{ℕ, Bool, String, Option, none, some, List}

abbrev pub Bytes : Type 0
Bytes = List ℕ

pub data CommitType : Type 0 where
  two_phase_commit three_phase_commit : CommitType

-- `Type` of the schema.
pub data Answer : Type 0 where
  ack nack : Answer

pub record ProposeRequest : Type 0 where
  pub key : String
  pub value : Bytes
  pub commit_type : CommitType
  pub index : ℕ

pub record PrecommitRequest : Type 0 where
  pub index : ℕ

pub record CommitRequest : Type 0 where
  pub index : ℕ
  pub is_rollback : Bool

pub record Entry : Type 0 where
  pub key : String
  pub value : Bytes

pub record Response : Type 0 where
  pub typ : Answer
  pub index : ℕ

pub data Error : Type 0 where
  no_metadata not_acknowledged not_in_cache failed_to_save : Error
  no_value_on : ℕ → Error
  no_peer permission_denied unavailable deadline_exceeded : Error
  no_database : Error
  other : String → Error
  -- `errors.Wrap`
  wrap : String → Error → Error

-- The two results of a Go handler, either of which may be nil.
pub record Reply : Type 0 where
  pub response : Option Response
  pub error : Option Error

abbrev pub answer : Answer → ℕ → Reply
answer t i = record { response = some (record { typ = t; index = i }); error = none }

abbrev pub fails : Error → Reply
fails e = record { response = none; error = some e }
