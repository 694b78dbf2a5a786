-- ===== src/Models/Approval.antt =====
-- `ApprovalStatus` of common/models/models.go.
use asika.Prelude.{Bytes, List}

pub record ApprovalStatus : Type 0 where
  pub approvers : List Bytes
  pub blockers : List Bytes
