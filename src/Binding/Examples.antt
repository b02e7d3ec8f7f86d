-- ===== src/Binding/Examples.antt =====
-- A plan of three tokens in two groups, and a document of two captions.
use ztok.Common.{
  ℕ, ◌≡◌, refl, true, List, [], ◌∷◌, none, some, String, ok, arith, length, flat_map, map_result,
  range, range_from, filter_map, any, all, elem, sum,
}
use ztok.Common.Milli.{Milli, milli}
use ztok.Common.Floats.{of_nat}
use ztok.Common.Sort.{sort, insert_sorted}
use ztok.Common.Counting.{union, insert}
use ztok.Common.Dict.{group_from, append_to, get_list}
use ztok.Mapping.Decision.{ids_eq}
use ztok.Binding.{SemanticSpan, SemanticDocument}
use ztok.Binding.Semantic.{
  embedding_rows, check_grounding, check_captions, caption_count, by_caption, token_ends, raise_end,
  quality_of, caption_of, build_semantic_document,
}
use ztok.Binding.Document.{IsDocument, build_semantic_document-IsDocument}
use ztok.Binding.Owner.{Wrapper}
use ztok.Binding.Fixed.{
  FusionKind, FixedSuperpositionConfig, fusion_by_code, SourceToken, NativeGroup, SuperpositionPlan,
  NativePlan, raise_for_status, materialize_group, read_offset, materialize_plan, Library,
  build_fixed_plan,
}
use ztok.Binding.Handles.{OpensOnSuccess, build_fixed_plan-handles}
use ztok.Binding.Partition.{materialize_plan-partition}

abbrev source : ℕ → ℕ → SourceToken Milli
source index id = record {
  token_index = index;
  token_id = id;
  byte_start = 0;
  byte_end = 1;
  weight = of_nat 1;
}

abbrev group : ℕ → ℕ → ℕ → ℕ → NativeGroup Milli
group index start count kind = record {
  output_index = index;
  source_start = start;
  source_count = count;
  fusion = 2;
  kind = kind;
  position_start = start;
  position_end = start;
  byte_start = 0;
  byte_end = 1;
  center_position = of_nat 0;
  normalized_center = of_nat 0;
}

abbrev native_plan : NativePlan Milli
native_plan = record {
  ids = 7 ∷ 8 ∷ 9 ∷ [];
  offset = λ i. (0, (i, i));
  sources = source 0 7 ∷ source 1 8 ∷ source 2 9 ∷ [];
  groups = group 0 0 2 0 ∷ group 1 2 1 1 ∷ [];
  json_size_status = 3;
  json_status = 0;
  json = "{}";
}

read_plan : (p : SuperpositionPlan Milli) × (materialize_plan native_plan ≡ ok p)
unfolding materialize_plan map_result range range_from read_offset raise_for_status
    materialize_group fusion_by_code
read_plan = (_, refl)

materialize_plan-partition_example :
    (flat_map (λ g. g.sources) read_plan.0.groups ≡ native_plan.sources)
    × (length read_plan.0.groups ≡ 2)
    × (read_plan.0.original_ids ≡ native_plan.ids)
    × (length read_plan.0.original_offsets ≡ 3)
materialize_plan-partition_example =
    materialize_plan-partition native_plan {made = read_plan.0} read_plan.1
      (refl, ground arith, (refl, ground arith, refl))

abbrev library : Library Milli
library = record {
  encode = λ p text c hs. (0, some (length hs), length hs ∷ hs);
  plan_at = λ h. native_plan;
}

library-OpensOnSuccess : OpensOnSuccess library
library-OpensOnSuccess p text c hs = (refl, refl)

abbrev pairs : FixedSuperpositionConfig
pairs = record {
  group_size = 2;
  stride = none;
  preserve_special_tokens = true;
  preserve_boundary_tokens = true;
  allow_partial_final_group = true;
  fusion = FusionKind.norm_preserving_mean;
}

abbrev tokenizer : Wrapper
tokenizer = record { handle = some 5; finalizer = some 5 }

build_fixed_plan-handles_example :
    (build_fixed_plan library tokenizer "abc" pairs (5 ∷ [])).1 ≡ (5 ∷ [])
build_fixed_plan-handles_example =
    build_fixed_plan-handles library library-OpensOnSuccess tokenizer "abc" pairs (5 ∷ [])

abbrev span : String → ℕ → ℕ → SemanticSpan Milli
span id caption end_ = record {
  span_id = id;
  caption_id = caption;
  token_start = 0;
  token_end = end_;
  byte_start = 0;
  byte_end = 4;
  text = "text";
  role = none;
  entity_id = none;
  confidence = of_nat 1;
  caption_quality = of_nat 1;
  grounding = none;
  grounding_confidence = of_nat 1;
  section_reliability = of_nat 1;
  kind = "other";
  order_class = none;
  relation_from_entity_id = none;
  relation_to_entity_id = none;
  contradicts = [];
  section = none;
}

abbrev spans : List (SemanticSpan Milli)
spans = span "a" 1 2 ∷ span "b" 0 3 ∷ span "c" 1 5 ∷ []

abbrev embeddings : List (List Milli)
embeddings = (of_nat 1 ∷ []) ∷ (of_nat 2 ∷ []) ∷ (of_nat 3 ∷ []) ∷ []

built :
    (doc : SemanticDocument Milli) × (build_semantic_document spans embeddings "image" none
      ≡ ok doc)
unfolding build_semantic_document embedding_rows check_grounding check_captions caption_count
    caption_of by_caption quality_of map_result range range_from any all filter_map elem sort
    insert_sorted union insert ids_eq group_from append_to get_list token_ends raise_end sum
built = (_, refl)

build_semantic_document-IsDocument_example : IsDocument spans embeddings built.0
build_semantic_document-IsDocument_example =
    build_semantic_document-IsDocument spans embeddings "image" none {doc = built.0} built.1
