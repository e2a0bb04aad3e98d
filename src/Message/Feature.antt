-- ===== src/Message/Feature.antt =====
-- protocol/message/feature.go
use adcl.Prelude.{Bytes}

pub data FeatureOpAction : Type 0 where
  add remove : FeatureOpAction

pub record FeatureOp : Type 0 where
  pub op_action : FeatureOpAction
  pub feature : Bytes
