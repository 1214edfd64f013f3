-- ===== src/WebhookCore/Store.antt =====
-- The state that the two caches of webhookcore share (replay.go and dedup.go): a container/list of
-- entries, oldest first, and a map from the composite key to the entry's list element.
-- A list element is a pointer; it is modelled by an identity that no other element of the list
-- ever had, beside the value that it points to, which the caches never change.
pub mod Laws
pub mod Evict
use contextmatrix_backendkit.Prelude.{
  ℕ, zero, suc, ite, List, [], ◌∷◌, ◌++◌, map, Option, none, some, ℕ_discrete, length, Bytes,
  bytes_dec, Bool, if◌then◌else◌, ltb,
}
use contextmatrix_backendkit.Prelude.Assoc.{lookup, insert, delete}

pub record Element (V : Type 0) : Type 0 where
  pub id : ℕ
  pub value : V

pub record Store (V : Type 0) : Type 0 where
  pub elements : List (Element V)
  pub next_id : ℕ
  pub index : List (Bytes × Element V)

module _ {V : Type 0} where
  -- `list.New()` and `make(map[string]*list.Element)`
  unfoldable pub new : Store V
  new = record { elements = []; next_id = 0; index = [] }

  -- `c.index[key]`
  unfoldable pub find : Bytes → Store V → Option (Element V)
  find k s = lookup bytes_dec k s.index

  -- `el := c.entries.PushBack(v); c.index[key] = el`
  unfoldable pub push : Bytes → V → Store V → Store V
  push k v s = record s {
    elements = s.elements ++ el ∷ [];
    next_id = suc s.next_id;
    index = insert bytes_dec k el s.index;
  }
    where
      el : Element V
      el = record { id = s.next_id; value = v }

  -- `l.Remove(el)`: unlinks the element that the pointer names, if it is in the list.
  unfoldable pub remove : ℕ → List (Element V) → List (Element V)
  remove n [] = []
  remove n (x ∷ xs) = ite (ℕ_discrete x.id n) xs (x ∷ remove n xs)

  -- `c.entries.Remove(el); delete(c.index, key)`
  unfoldable pub unlink : Element V → Bytes → Store V → Store V
  unlink el k s = record s {
    elements = remove el.id s.elements;
    index = delete bytes_dec k s.index;
  }

  -- `c.entries.Front()`
  abbrev pub front : List (Element V) → Option (Element V)
  front [] = none
  front (x ∷ xs) = some x

  -- `c.entries.Len()`
  abbrev pub len : Store V → ℕ
  len s = length s.elements

  -- One round of the eviction loop; a list with no front ends the loop.
  unfoldable pub drop_front : (V → Bytes) → Store V → Store V
  drop_front key s = elim (front s.elements) [
    | none ↦ s
    | some oldest ↦ unlink oldest (key oldest.value) s
  ]

  -- `for c.entries.Len() > capacity { … }`, on fuel.
  unfoldable pub evict : (V → Bytes) → ℕ → ℕ → Store V → Store V
  evict key capacity zero s = s
  evict key capacity (suc fuel) s =
      let rest = evict key capacity fuel (drop_front key s) in
      if ltb capacity (len s) then rest else s
