-- ===== src/Primer.antt =====
-- experiments/nanogpt_superposition/superposition/statement_primer.py: statements that differ in
-- one token, and their batches.
pub mod Align
pub mod Batches
pub mod Laws
pub mod Rows
pub mod Slot
pub mod Examples
use ztok.Common.{ℕ, List, Option, String}

pub record StatementExpansion (R : Type 0) : Type 0 where
  pub expansion_id : String
  pub token_ids : List ℕ
  pub expanded_token_index : ℕ
  pub alternative_token_ids : List ℕ
  pub weights : List R
  pub explicit_source_bytes : ℕ
  pub statement_kind : String
  pub slot_kind : String

-- An alternative of a record: its statements, and its weight if there is one.
pub record Alternative (R : Type 0) : Type 0 where
  pub statements : List String
  pub weight : Option R

-- A record of the inventory; a missing key is `none`.
pub record Inventory (R : Type 0) : Type 0 where
  pub expansion_id : Option String
  pub alternatives : List (Alternative R)
  pub statement_kind : Option String
  pub expanded_slot_kind : Option String
