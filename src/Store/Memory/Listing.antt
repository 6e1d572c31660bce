-- ===== src/Store/Memory/Listing.antt =====
-- The listing of the store in memory.
use snap_cook.Common.{Str, ◌≡◌, sym, ◌∙◌, Option-cases, Bool-cases, inl, inr}
use snap_cook.Dict.{get, keys, mem}
use snap_cook.Dict.Laws.{mem-keys, get-of_mem}
use snap_cook.Sort.Perms.{mem-sorted}
use snap_cook.Store.{exists}
use snap_cook.Store.Memory.{MemoryStore, memory, read_head_ref, list_recipe_ids}

mem-heads :
    (s : MemoryStore) (recipe_id : Str) → mem recipe_id (keys s.heads) ≡ exists memory s recipe_id
unfolding exists read_head_ref
mem-heads s recipe_id = elim (Option-cases (get s.heads recipe_id)) [
  | inl e ↦
      rw (e, exists)
        (elim (Bool-cases (mem recipe_id (keys s.heads))) [
          | inl h ↦ let (v, f) = get-of_mem s.heads recipe_id h in cc (sym e ∙ f)
          | inr h ↦ h
        ])
  | inr (ref, e) ↦ rw (e, exists) (mem-keys s.heads recipe_id ref e)
]

-- The listing holds exactly the recipes that exist in the store.
pub mem-list_recipe_ids :
    (s : MemoryStore) (recipe_id : Str)
    → mem recipe_id (list_recipe_ids s) ≡ exists memory s recipe_id
unfolding list_recipe_ids
mem-list_recipe_ids s recipe_id = mem-sorted recipe_id (keys s.heads) ∙ mem-heads s recipe_id
