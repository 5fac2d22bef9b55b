-- ===== src/Log/Frame.antt =====
-- The record of one console line (log.rs and kind.rs of crates/chimera-core-metadata).
use chimera_service.Base.{ℕ, Bool, Option, List}
use chimera_service.Base.Text.{Bytes}

pub data CoreKind : Type 0 where
  mihomo meow clash_rust chimera_client clash_premium : CoreKind

pub data LogLevel : Type 0 where
  trace debug info warning error fatal : LogLevel

pub data LogStream : Type 0 where
  stdout stderr : LogStream

pub record LogTimestamp : Type 0 where
  pub raw : Bytes
  pub unix_ms : Option ℕ
  pub inferred : Bool

pub record LogField : Type 0 where
  pub key : Bytes
  pub value : Bytes

pub record LogFrame : Type 0 where
  pub at : ℕ
  pub epoch : ℕ
  pub kind : CoreKind
  pub stream : LogStream
  pub level : LogLevel
  pub timestamp : Option LogTimestamp
  pub target : Option Bytes
  pub message : Bytes
  pub fields : List LogField
  pub raw : Bytes
  pub truncated : Bool
