-- ===== src/Binding.antt =====
-- bindings/python/ztok/superposition.py: plans over the native library, and the documents that
-- are sent to it.
pub mod Semantic
pub mod Owner
pub mod Sharing
pub mod Captions
pub mod Document
pub mod Fixed
pub mod Handles
pub mod Partition
pub mod Examples
use ztok.Common.{ℕ, List, Option, String}

pub record SemanticSpan (R : Type 0) : Type 0 where
  pub span_id : String
  pub caption_id : ℕ
  pub token_start : ℕ
  pub token_end : ℕ
  pub byte_start : ℕ
  pub byte_end : ℕ
  pub text : String
  pub role : Option String
  pub entity_id : Option String
  pub confidence : R
  pub caption_quality : R
  pub grounding : Option (List R)
  pub grounding_confidence : R
  pub section_reliability : R
  pub kind : String
  pub order_class : Option String
  pub relation_from_entity_id : Option String
  pub relation_to_entity_id : Option String
  pub contradicts : List String
  pub section : Option String

-- A value of the exchange document.
pub data Value (R : Type 0) : Type 0 where
  text : String → Value R
  number : ℕ → Value R
  float : R → Value R
  floats : List R → Value R
  texts : List String → Value R

-- A span as a dictionary.
abbrev pub Item : Type 0 → Type 0
Item R = List (String × Value R)

pub record Caption (R : Type 0) : Type 0 where
  pub caption_id : ℕ
  pub quality : R
  pub caption_text : String
  pub tokens : List ℕ
  pub spans : List (Item R)
  pub section : Option String

pub record SemanticDocument (R : Type 0) : Type 0 where
  pub schema : String
  pub image_id : String
  pub original_token_count : ℕ
  pub captions : List (Caption R)
