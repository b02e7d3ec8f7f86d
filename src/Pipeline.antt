-- ===== src/Pipeline.antt =====
-- `BatchPool` and `Pipeline` of bindings/python/ztok/__init__.py: the objects that own a handle of
-- the native library. The library's constructors and its detection of formats are parameters.
mod Life
mod Calls
mod Buffers
mod Stream
mod Release
mod Chunks
mod Examples
mod Streams
mod Growth
mod Overlays
use ztok.Common.{
  ℕ, ◌%◌, Bool, true, false, not, List, [], ◌∷◌, Option, none, some, String, Result, ok, err,
  ztok_error, ztok_base_error, value_error, str_eq, if◌then◌else◌, is_some, ltb,
}
use ztok.Binding.Fixed.{raise_for_status, free}
use ztok.Binding.Owner.{Wrapper}

-- A call of the finalizer, on the library's open handles.
unfoldable pub finalize : Wrapper → List ℕ → List ℕ
unfolding free
finalize w open_handles = elim w.finalizer [ none ↦ open_handles | some h ↦ free h open_handles ]

unfoldable pub close : Wrapper → List ℕ → Wrapper × List ℕ
unfolding finalize
close w open_handles = (record { handle = none; finalizer = none }, finalize w open_handles)

abbrev pub owner : ℕ → Wrapper
owner h = record { handle = some h; finalizer = some h }

-- What a constructor of the library answers: a status, a handle or `NULL`, and the handles that
-- are open then.
abbrev pub Opening : Type 0
Opening = ℕ × Option ℕ × List ℕ

-- The outcome of a constructor with the handles that it leaves open.
abbrev pub Opened : Type 0
Opened = Result Wrapper × List ℕ

-- What follows the call: the status is raised, then a missing handle.
unfoldable pub own : Opening → Opened
unfolding raise_for_status
own (status, handle, opened) = elim (raise_for_status status) [
  | err e ↦ (err e, opened)
  | ok done ↦ elim handle [ none ↦ (err (ztok_error 99), opened) | some h ↦ (ok (owner h), opened) ]
]

-- `BatchPool.__init__`, for a count of workers that may be negative.
pub data Workers : Type 0 where
  negative : Workers
  count : ℕ → Workers

unfoldable pub new_pool : (ℕ → List ℕ → Opening) → Workers → List ℕ → Opened
unfolding own
new_pool ztok_batch_pool_new Workers.negative open_handles =
    (err (value_error "workers must be >= 0 (0 = auto)"), open_handles)
new_pool ztok_batch_pool_new (Workers.count n) open_handles =
    own (ztok_batch_pool_new (n % 4294967296) open_handles)

-- The constructors of the library that read a file.
pub data Loader : Type 0 where
  bpe_from_tiktoken bpe_from_hf_json unigram_from_sp_model monster_from_file rwkv_from_file
        tekken_from_file :
      Loader

-- `_make_config`; the model is always `MODEL_BYTE_ID`.
pub record Config : Type 0 where
  pub normalizer : ℕ
  pub pre_tokenizer : ℕ
  pub decoder : ℕ

-- A call of a loader: the constructor, its configuration and, for SentencePiece, the unknown id.
abbrev pub Load : Type 0
Load = Loader × Config × Option ℕ

abbrev config_of : ℕ → ℕ → ℕ → Config
config_of normalizer pre_tokenizer decoder = record {
  normalizer = normalizer;
  pre_tokenizer = pre_tokenizer;
  decoder = decoder;
}

-- The named constructors; `cl100k` chooses the pre-tokenizer.
unfoldable pub from_tiktoken : Bool → ℕ → ℕ → Load
from_tiktoken cl100k normalizer decoder =
    (bpe_from_tiktoken, config_of normalizer (if cl100k then 1 else 0) decoder, none)

unfoldable pub from_hf_json : Bool → ℕ → ℕ → Load
from_hf_json cl100k normalizer decoder =
    (bpe_from_hf_json, config_of normalizer (if cl100k then 1 else 0) decoder, none)

unfoldable pub from_sentencepiece : ℕ → ℕ → ℕ → ℕ → Load
from_sentencepiece unk_id normalizer pre_tokenizer decoder =
    (unigram_from_sp_model, config_of normalizer pre_tokenizer decoder, some (unk_id % 4294967296))

unfoldable pub from_monster : ℕ → ℕ → ℕ → Load
from_monster normalizer pre_tokenizer decoder =
    (monster_from_file, config_of normalizer pre_tokenizer decoder, none)

unfoldable pub from_rwkv : ℕ → ℕ → Load
from_rwkv normalizer decoder = (rwkv_from_file, config_of normalizer 0 decoder, none)

unfoldable pub from_tekken : ℕ → ℕ → ℕ → Load
from_tekken normalizer pre_tokenizer decoder =
    (tekken_from_file, config_of normalizer pre_tokenizer decoder, none)

-- The dispatch on the detected label, with the constructors' own defaults.
unfoldable pub load_of : String → ℕ → ℕ → Option Load
unfolding from_tiktoken from_hf_json from_sentencepiece from_monster from_rwkv from_tekken
load_of fmt unk_id normalizer =
    if str_eq fmt "tiktoken"
    then some (from_tiktoken true normalizer 0)
    else if str_eq fmt "hf_json"
    then some (from_hf_json false normalizer 0)
    else if str_eq fmt "sentencepiece"
    then some (from_sentencepiece unk_id normalizer 0 0)
    else if str_eq fmt "ztm"
    then some (from_monster normalizer 0 0)
    else if str_eq fmt "rwkv"
    then some (from_rwkv normalizer 0)
    else if str_eq fmt "tekken"
    then some (from_tekken normalizer 2 0)
    else none

-- `from_path`, with the label of the format that the library detects. The decoder that a caller
-- may name is not passed on.
unfoldable pub from_path :
    (String → String)
    → (Load → String → List ℕ → Opening)
    → String
    → ℕ
    → ℕ
    → Option ℕ
    → List ℕ
    → Opened
unfolding load_of own
from_path detect_format pipeline_new path unk_id normalizer decoder open_handles =
    elim (load_of (detect_format path) unk_id normalizer) [
      | none ↦ (err (ztok_error 2), open_handles)
      | some load ↦ own (pipeline_new load path open_handles)
    ]
