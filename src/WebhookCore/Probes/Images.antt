-- ===== src/WebhookCore/Probes/Images.antt =====
-- Which tags the image list shows (webhookcore/images.go).
use contextmatrix_backendkit.Prelude.{
  ◌≡◌, List, [], ◌∷◌, Any, some, none, true, arith, Bytes, ◌⊎◌, inl, inr, List-cases, sym, subst,
  ◌↔◌,
}
use contextmatrix_backendkit.WebhookCore.Core.{ImageSummary, Core}
use contextmatrix_backendkit.WebhookCore.Probes.{
  ImageListItem, list_images, matches_any, matching_tags, image_item, image_items, handle_images,
}
use contextmatrix_backendkit.WebhookCore.Probes.Tags.{
  Shown, matches_any-Shown, Shown-matches_any, Has, Has-matching_tags, matching_tags-Has,
}

-- A tag is in the tags of some item, or of some summary.
abbrev pub Listed : Bytes → List ImageListItem → Type 0
Listed tag items = Any (λ (item : ImageListItem). Has tag item.tags) items

abbrev pub Present : Bytes → List ImageSummary → Type 0
Present tag summaries = Any (λ (sum : ImageSummary). Has tag sum.tags) summaries

-- The item of a summary has its tags, or there is none because it has none.
image_item-cases :
    (filters : List Bytes) (sum : ImageSummary)
    → ((image_item filters sum ≡ none) × (matching_tags sum.tags filters ≡ []))
      ⊎ ((item : ImageListItem) × (image_item filters sum ≡ some item)
          × (item.tags ≡ matching_tags sum.tags filters))
unfolding image_item
image_item-cases filters sum = elim (List-cases (matching_tags sum.tags filters)) [
  | inl e ↦ inl (ground (arith, e), e)
  | inr (t, tags, e) ↦ inr (
    record {
      tags = t ∷ tags;
      digests = sum.digests;
      created = sum.created_at;
      size = sum.size_bytes;
    },
    ground (arith, e),
    sym e,
  )
]

image_items-none :
    (filters : List Bytes) (sum : ImageSummary) (summaries : List ImageSummary)
    → image_item filters sum ≡ none
    → image_items filters (sum ∷ summaries) ≡ image_items filters summaries
unfolding image_items
image_items-none filters sum summaries h = ground (arith, h)

image_items-some :
    (filters : List Bytes) (sum : ImageSummary) (summaries : List ImageSummary)
    (item : ImageListItem)
    → image_item filters sum ≡ some item
    → image_items filters (sum ∷ summaries) ≡ item ∷ image_items filters summaries
unfolding image_items
image_items-some filters sum summaries item h = ground (arith, h)

Listed-first :
    (tag : Bytes) (filters : List Bytes) (sum : ImageSummary) (summaries : List ImageSummary)
    (item : ImageListItem) (items : List ImageListItem)
    → item.tags ≡ matching_tags sum.tags filters
    → (Listed tag items → Present tag summaries × (matches_any tag filters ≡ true))
    → Listed tag (item ∷ items)
    → Present tag (sum ∷ summaries) × (matches_any tag filters ≡ true)
Listed-first tag filters sum summaries item items e more (inl here) =
    let (p, q) = Has-matching_tags tag sum.tags filters (subst (Has tag) e here) in (inl p, q)
Listed-first tag filters sum summaries item items e more (inr later) =
    let (p, q) = more later in (inr p, q)

Listed-Present :
    (tag : Bytes) (filters : List Bytes) (summaries : List ImageSummary)
    → Listed tag (image_items filters summaries)
    → Present tag summaries × (matches_any tag filters ≡ true)
unfolding image_items
Listed-Present tag filters [] h = absurd h
Listed-Present tag filters (sum ∷ summaries) h = elim (image_item-cases filters sum) [
  | inl (e, empty) ↦
      let (p, q) =
        Listed-Present tag filters summaries
          (subst (Listed tag) (image_items-none filters sum summaries e) h) in
      (inr p, q)
  | inr (item, e, tags) ↦
      Listed-first tag filters sum summaries item (image_items filters summaries) tags
        (Listed-Present tag filters summaries)
        (subst (Listed tag) (image_items-some filters sum summaries item e) h)
]

Present-Listed :
    (tag : Bytes) (filters : List Bytes) (summaries : List ImageSummary)
    → Present tag summaries
    → matches_any tag filters ≡ true
    → Listed tag (image_items filters summaries)
Present-Listed tag filters [] h m = absurd h
Present-Listed tag filters (sum ∷ summaries) (inl here) m =
    let kept = matching_tags-Has tag sum.tags filters here m in
    elim (image_item-cases filters sum) [
      | inl (e, empty) ↦ absurd (subst (Has tag) empty kept)
      | inr (item, e, tags) ↦
          rw (image_items-some filters sum summaries item e) (inl (subst (Has tag) (sym tags) kept))
    ]
Present-Listed tag filters (sum ∷ summaries) (inr later) m =
    let more = Present-Listed tag filters summaries later m in
    elim (image_item-cases filters sum) [
      | inl (e, empty) ↦ rw (image_items-none filters sum summaries e) more
      | inr (item, e, tags) ↦ rw (image_items-some filters sum summaries item e) (inr more)
    ]

listed :
    (filters : List Bytes) (summaries : List ImageSummary) (tag : Bytes)
    → Listed tag (image_items filters summaries)
    → Present tag summaries × Shown filters tag
listed filters summaries tag h =
    let (p, q) = Listed-Present tag filters summaries h in (p, matches_any-Shown tag filters q)

shown :
    (filters : List Bytes) (summaries : List ImageSummary) (tag : Bytes)
    → Present tag summaries × Shown filters tag
    → Listed tag (image_items filters summaries)
shown filters summaries tag (p, q) =
    Present-Listed tag filters summaries p (Shown-matches_any tag filters q)

-- Where the lister answers, the image list is 200 and shows exactly the tags of its images in
-- which some filter stands.
pub handle_images-Listed :
    (core : Core) (summaries : List ImageSummary)
    → core.images ≡ some (some summaries)
    → (items : List ImageListItem) × (handle_images core
        ≡ record { status = 200; value = list_images true items })
      × ((tag : Bytes)
          → Listed tag items ↔ (Present tag summaries × Shown core.image_list_filters tag))
unfolding handle_images
handle_images-Listed core summaries h = (
  image_items core.image_list_filters summaries,
  ground (arith, h),
  λ tag.
      (listed core.image_list_filters summaries tag, shown core.image_list_filters summaries tag),
)
