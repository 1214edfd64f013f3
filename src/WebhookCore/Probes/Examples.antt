-- ===== src/WebhookCore/Probes/Examples.antt =====
-- The image list at a concrete answer of the lister.
use contextmatrix_backendkit.Prelude.{
  ◌≡◌, ◌↔◌, refl, List, [], ◌∷◌, none, some, true, false, Bytes, bytes, bytes_dec, ℕ_discrete,
}
use contextmatrix_backendkit.Prelude.Int.{pos}
use contextmatrix_backendkit.GoStrings.{cut_prefix, has_prefix, contains}
use contextmatrix_backendkit.WebhookCore.Core.{Core, ImageSummary}
use contextmatrix_backendkit.WebhookCore.Replay.{new_replay_cache}
use contextmatrix_backendkit.WebhookCore.Probes.{
  ImageListItem, list_images, matches_any, matching_tags, image_item, image_items, handle_images,
}
use contextmatrix_backendkit.WebhookCore.Probes.Images
use contextmatrix_backendkit.WebhookCore.Probes.Images.{Listed, Present}
use contextmatrix_backendkit.WebhookCore.Probes.Tags.{Shown}

program : Unit {0}
unfolding cut_prefix has_prefix contains matches_any matching_tags image_item image_items
    handle_images bytes_dec ℕ_discrete
program = tt

-- A worker, with a tag that is filtered out, and another image.
abbrev summaries : List ImageSummary
summaries =
    record {
      tags = bytes "r/cm-worker:1" ∷ bytes "old" ∷ [];
      digests = bytes "d" ∷ [];
      created_at = pos 5;
      size_bytes = pos 7;
    }
    ∷ record { tags = bytes "postgres" ∷ []; digests = []; created_at = pos 6; size_bytes = pos 8 }
    ∷ []

abbrev core : Core
core = record {
  api_key = bytes "k";
  metrics_token = [];
  skew = pos 10;
  replay = new_replay_cache (pos 15) (pos 4096);
  draining = false;
  keepalive_interval = pos 0;
  logs_filter_param = bytes "project";
  logs_filter_attr = bytes "project_filter";
  tracker = none;
  max_concurrent = pos 4;
  images = some (some summaries);
  image_list_filters = bytes "cm-" ∷ [];
  build = record { changes = some []; rest = [] };
  worker_image_revision = none;
  sse_shutdown = false;
}

shown : handle_images core ≡ record {
  status = 200;
  value = list_images true (
      record {
        tags = bytes "r/cm-worker:1" ∷ [];
        digests = bytes "d" ∷ [];
        created = pos 5;
        size = pos 7;
      }
      ∷ []);
}
unfolding program
shown = refl

handle_images-Listed_example :
    (items : List ImageListItem) × (handle_images core
      ≡ record { status = 200; value = list_images true items })
    × ((tag : Bytes)
        → Listed tag items ↔ (Present tag summaries × Shown core.image_list_filters tag))
handle_images-Listed_example = Images.handle_images-Listed core summaries refl
