-- ===== src/WebhookCore/Probes.antt =====
-- The probes, webhookcore/health.go, webhookcore/images.go and webhookcore/revision.go, and
-- matchingTags of webhookcore/helpers.go. A handler's result is its call of WriteJSON.
pub mod Tags
pub mod Images
mod Examples
use contextmatrix_backendkit.Prelude.{
  ℕ, List, [], ◌∷◌, ◌++◌, Option, none, some, Bool, true, false, not, ◌||◌, Bytes, bytes, bytes_dec,
  is_empty, if◌then◌else◌,
}
use contextmatrix_backendkit.Prelude.Int.{ℤ, pos}
use contextmatrix_backendkit.Prelude.Assoc.{lookup}
use contextmatrix_backendkit.GoStrings.{contains}
use contextmatrix_backendkit.WebhookCore.Http.{
  ErrorResponse, Reply, internal, upstream_failure, write_error,
}
use contextmatrix_backendkit.WebhookCore.Core.{
  BuildInfo, ImageSummary, HookCall, returns, panics, Core,
}

-- protocol.ImageListItem
pub record ImageListItem : Type 0 where
  pub tags : List Bytes
  pub digests : List Bytes
  pub created : ℤ
  pub size : ℤ

-- protocol.ListImagesResponse, or an error.
pub data ImagesAnswer : Type 0 where
  list_images : Bool → List ImageListItem → ImagesAnswer
  images_error : ErrorResponse → ImagesAnswer

-- The inner loop of matchingTags, up to its `break`.
unfoldable pub matches_any : Bytes → List Bytes → Bool
matches_any tag [] = false
matches_any tag (f ∷ filters) = contains tag f || matches_any tag filters

unfoldable pub matching_tags : List Bytes → List Bytes → List Bytes
unfolding matches_any
matching_tags [] filters = []
matching_tags (tag ∷ tags) filters =
    let rest = matching_tags tags filters in if matches_any tag filters then tag ∷ rest else rest

-- The item of a summary, none where no tag is left.
unfoldable pub image_item : List Bytes → ImageSummary → Option ImageListItem
unfolding matching_tags
image_item filters sum = elim (matching_tags sum.tags filters) [
  | [] ↦ none
  | t ∷ tags ↦ some (record {
    tags = t ∷ tags;
    digests = sum.digests;
    created = sum.created_at;
    size = sum.size_bytes;
  })
]

-- The loop over the summaries.
unfoldable pub image_items : List Bytes → List ImageSummary → List ImageListItem
unfolding image_item
image_items filters [] = []
image_items filters (sum ∷ summaries) =
    let rest = image_items filters summaries in
    elim (image_item filters sum) [ none ↦ rest | some item ↦ item ∷ rest ]

-- An error as an answer of this handler.
abbrev pub failed_images : Reply ErrorResponse → Reply ImagesAnswer
failed_images r = record { status = r.status; value = images_error r.value }

unfoldable pub handle_images : Core → Reply ImagesAnswer
unfolding image_items write_error
handle_images core = elim core.images [
  | none ↦ failed_images (write_error 500 internal (bytes "image lister not wired"))
  | some listed ↦ elim listed [
    | none ↦ failed_images (write_error 502 upstream_failure (bytes "image list failed"))
    | some summaries ↦ record {
      status = 200;
      value = list_images true (image_items core.image_list_filters summaries);
    }
  ]
]

-- protocol.HealthResponse; `build` is the copy that its pointer leads to.
pub record HealthResponse : Type 0 where
  pub ok : Bool
  pub running_containers : ℤ
  pub max_concurrent : ℤ
  pub build : BuildInfo
  pub worker_image_revision : Option Bytes

-- A panic of the hook is recovered and reads as unknown. The timeout is the hook's to keep.
unfoldable pub image_revision : HookCall → Bytes
image_revision (returns rev) = rev
image_revision panics = []

unfoldable pub handle_health : Core → Reply HealthResponse
unfolding image_revision
handle_health core = record {
  status = 200;
  value = record {
    ok = true;
    running_containers = elim core.tracker [ none ↦ pos 0 | some n ↦ n ];
    max_concurrent = core.max_concurrent;
    build = core.build;
    worker_image_revision = elim core.worker_image_revision [
      | none ↦ none
      | some hook ↦ some (image_revision hook)
    ];
  };
}

pub record ReadyResponse : Type 0 where
  pub ok : Bool
  pub reason : Bytes

unfoldable pub handle_readyz : Core → Reply ReadyResponse
handle_readyz core =
    if core.draining
    then record { status = 503; value = record { ok = false; reason = bytes "draining" } }
    else record { status = 200; value = record { ok = true; reason = [] } }

abbrev pub image_revision_label : Bytes
image_revision_label = bytes "org.opencontainers.image.revision"

-- `labeler` gives an image's labels, none for an error; itself none for nil. `trim_space` is
-- strings.TrimSpace.
unfoldable pub image_revision_hook :
    (Bytes → Bytes) → Option (Bytes → Option (List (Bytes × Bytes))) → Bytes → Option HookCall
image_revision_hook trim_space none ref = none
image_revision_hook trim_space (some labels) ref =
    if is_empty ref
    then none
    else some (
        returns (elim (labels ref) [
          | none ↦ []
          | some m ↦ elim (lookup bytes_dec image_revision_label m) [
            | none ↦ trim_space []
            | some rev ↦ trim_space rev
          ]
        ]))
