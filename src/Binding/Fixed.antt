-- ===== src/Binding/Fixed.antt =====
-- `FixedSuperpositionConfig`, `_materialize_plan` and `build_fixed_plan` of superposition.py. The
-- native library is a parameter: what its accessors return for a handle.
use ztok.Common.{
  ℕ, ◌+◌, ◌-◌, Bool, false, ztok_error, not, ◌&&◌, List, [], ◌∷◌, Option, none, some, String,
  Result, Check, ok, err, ◌>>=◌, ◌>>◌, raise_if, or_raise, map_result, value_error, runtime_error,
  key_error, length, take, drop, leb, ◌==◌, get_elem?, range, if◌then◌else◌,
}
use ztok.Binding.Owner.{Wrapper, raw}

pub data FusionKind : Type 0 where
  mean weighted_mean norm_preserving_mean : FusionKind

pub record FixedSuperpositionConfig : Type 0 where
  pub group_size : ℕ
  pub stride : Option ℕ
  pub preserve_special_tokens : Bool
  pub preserve_boundary_tokens : Bool
  pub allow_partial_final_group : Bool
  pub fusion : FusionKind

-- The structure that is passed to the library.
pub record FixedConfig : Type 0 where
  pub c_group_size : ℕ
  pub c_stride : ℕ
  pub c_fusion : ℕ
  pub c_preserve_special_tokens : ℕ
  pub c_preserve_boundary_tokens : ℕ
  pub c_allow_partial_final_group : ℕ

-- `_FUSION_TO_C[fusion]`, with the constants of _ffi.py.
unfoldable pub code_of : FusionKind → ℕ
code_of FusionKind.mean = 0
code_of FusionKind.weighted_mean = 1
code_of FusionKind.norm_preserving_mean = 2

-- `fusion_by_code[code]`.
unfoldable pub fusion_by_code : ℕ → Result FusionKind
fusion_by_code code =
    if code == 0
    then ok FusionKind.mean
    else if code == 1
    then ok FusionKind.weighted_mean
    else if code == 2
    then ok FusionKind.norm_preserving_mean
    else err key_error

abbrev pub as_int : Bool → ℕ
as_int b = if b then 1 else 0

unfoldable pub as_c : FixedSuperpositionConfig → Result FixedConfig
as_c c = do
  raise_if (not (leb 1 c.group_size && leb c.group_size 65535))
      (value_error "group_size must be in [1, 65535]")
  raise_if (elim c.stride [ none ↦ false | some s ↦ not (leb 1 s && leb s c.group_size) ])
      (value_error "stride must be in [1, group_size]")
  ok (record {
    c_group_size = c.group_size;
    c_stride = elim c.stride [ none ↦ 0 | some s ↦ s ];
    c_fusion = code_of c.fusion;
    c_preserve_special_tokens = as_int c.preserve_special_tokens;
    c_preserve_boundary_tokens = as_int c.preserve_boundary_tokens;
    c_allow_partial_final_group = as_int c.allow_partial_final_group;
  })

pub record SourceToken (R : Type 0) : Type 0 where
  pub token_index : ℕ
  pub token_id : ℕ
  pub byte_start : ℕ
  pub byte_end : ℕ
  pub weight : R

-- A group as the library holds it: a range of the sources, and codes.
pub record NativeGroup (R : Type 0) : Type 0 where
  pub output_index : ℕ
  pub source_start : ℕ
  pub source_count : ℕ
  pub fusion : ℕ
  pub kind : ℕ
  pub position_start : ℕ
  pub position_end : ℕ
  pub byte_start : ℕ
  pub byte_end : ℕ
  pub center_position : R
  pub normalized_center : R

pub record SuperpositionGroup (R : Type 0) : Type 0 where
  pub output_index : ℕ
  pub sources : List (SourceToken R)
  pub fusion : FusionKind
  pub kind : String
  pub position_start : ℕ
  pub position_end : ℕ
  pub byte_start : ℕ
  pub byte_end : ℕ
  pub center_position : R
  pub normalized_center : R

pub record SuperpositionPlan (R : Type 0) : Type 0 where
  pub original_ids : List ℕ
  pub original_offsets : List (ℕ × ℕ)
  pub groups : List (SuperpositionGroup R)
  pub json : String

-- What the accessors return for one handle: a status and a range for each token's offset, and two
-- statuses and the text for the JSON.
pub record NativePlan (R : Type 0) : Type 0 where
  pub ids : List ℕ
  pub offset : ℕ → ℕ × (ℕ × ℕ)
  pub sources : List (SourceToken R)
  pub groups : List (NativeGroup R)
  pub json_size_status : ℕ
  pub json_status : ℕ
  pub json : String

-- `_GROUP_KIND_NAMES[kind]`.
abbrev pub group_kind_names : List String
group_kind_names =
    "fixed_window" ∷ "partial_window" ∷ "preserved_special" ∷ "preserved_boundary"
    ∷ "uncovered_tail" ∷ []

-- `ZTOK_OK` and `ZTOK_ERR_BUFFER_TOO_SMALL`.
abbrev pub status_ok : ℕ
status_ok = 0

abbrev pub status_buffer_too_small : ℕ
status_buffer_too_small = 3

unfoldable pub raise_for_status : ℕ → Check
raise_for_status status = raise_if (not (status == status_ok)) (ztok_error status)

module _ {R : Type 0} where
  unfoldable pub materialize_group :
      List (SourceToken R) → NativeGroup R → Result (SuperpositionGroup R)
  materialize_group sources g = do
    fusion ← fusion_by_code g.fusion
    kind ← or_raise (get_elem? group_kind_names g.kind) key_error
    ok (record {
      output_index = g.output_index;
      sources =
          take (g.source_start + g.source_count - g.source_start) (drop g.source_start sources);
      fusion = fusion;
      kind = kind;
      position_start = g.position_start;
      position_end = g.position_end;
      byte_start = g.byte_start;
      byte_end = g.byte_end;
      center_position = g.center_position;
      normalized_center = g.normalized_center;
    })

  unfoldable pub read_offset : NativePlan R → ℕ → Result (ℕ × ℕ)
  read_offset plan index = do raise_for_status (plan.offset index).0; ok (plan.offset index).1

  unfoldable pub materialize_plan : NativePlan R → Result (SuperpositionPlan R)
  materialize_plan plan = do
    offsets ← map_result (read_offset plan) (range (length plan.ids))
    groups ← map_result (materialize_group plan.sources) plan.groups
    raise_if
        (not (plan.json_size_status == status_buffer_too_small)
          && not (plan.json_size_status == status_ok))
        (ztok_error plan.json_size_status)
    raise_for_status plan.json_status
    ok (record {
      original_ids = plan.ids;
      original_offsets = offsets;
      groups = groups;
      json = plan.json;
    })

-- The library's handles: which are open, and what each holds. A call of the encoder, with the
-- pipeline's handle, returns a status, and a new handle or `NULL`.
pub record Library (R : Type 0) : Type 0 where
  pub encode : ℕ → String → FixedConfig → List ℕ → ℕ × Option ℕ × List ℕ
  pub plan_at : ℕ → NativePlan R

-- `ztok_superposition_plan_free`.
unfoldable pub free : ℕ → List ℕ → List ℕ
free handle [] = []
free handle (h ∷ hs) = if h == handle then hs else h ∷ free handle hs

module _ {R : Type 0} (lib : Library R) where
  -- What follows the encoder's call; the handle is freed whether reading the plan raises or not.
  unfoldable pub finish : ℕ → Option ℕ → List ℕ → Result (SuperpositionPlan R) × List ℕ
  finish status handle opened = elim (raise_for_status status) [
    | err e ↦ (err e, opened)
    | ok done ↦ elim handle [
      | none ↦ (err (runtime_error "ztok_pipeline_encode_superposition returned NULL"), opened)
      | some h ↦ (materialize_plan (lib.plan_at h), free h opened)
    ]
  ]

  -- `build_fixed_plan` on the open handles: the outcome, and the handles that are left open.
  unfoldable pub build_fixed_plan :
      Wrapper → String → FixedSuperpositionConfig → List ℕ → Result (SuperpositionPlan R) × List ℕ
  unfolding raw
  build_fixed_plan pipeline text config open_handles = elim (as_c config) [
    | err e ↦ (err e, open_handles)
    | ok c_config ↦ elim (raw pipeline) [
      | err e ↦ (err e, open_handles)
      | ok pipeline_handle ↦
          let (status, handle, opened) = lib.encode pipeline_handle text c_config open_handles in
          finish status handle opened
    ]
  ]
