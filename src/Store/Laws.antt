-- ===== src/Store/Laws.antt =====
-- What the rules of the store need of a backend, and what they keep of its state.
use snap_cook.Common.{
  Str, str_eq, ◌≡◌, refl, ◌&&◌, ◌⊎◌, inl, inr, none, some, if◌then◌else◌, Option-cases,
}
use snap_cook.Errors.{ok}
use snap_cook.Store.{VersionRecord, Backend, head}

module _ {S : Type 0} (b : Backend S) where
  -- A read gives what was written last.
  pub record IsLawful : Type 0 where
    pub read_put :
        (i : Str) (r : VersionRecord) (s : S) (j v : Str)
        → b.read_version (b.put_version i r s) j v
          ≡ (if str_eq i j && str_eq r.version_id v then some r else b.read_version s j v)
    pub ref_put :
        (i : Str) (r : VersionRecord) (s : S) (j : Str)
        → b.read_head_ref (b.put_version i r s) j ≡ b.read_head_ref s j
    pub read_write :
        (i v : Str) (s : S) (j w : Str)
        → b.read_version (b.write_head_ref i v s) j w ≡ b.read_version s j w
    pub ref_write :
        (i v : Str) (s : S) (j : Str)
        → b.read_head_ref (b.write_head_ref i v s) j
          ≡ (if str_eq i j then some v else b.read_head_ref s j)

  -- A branch points at a stored version, and a version is stored under its recipe and its id.
  pub record IsIntact (s : S) : Type 0 where
    pub refs :
        (i ref : Str)
        → b.read_head_ref s i ≡ some ref
        → (r : VersionRecord) × (b.read_version s i ref ≡ some r)
    pub stored :
        (i v : Str) (r : VersionRecord)
        → b.read_version s i v ≡ some r
        → (r.version_id ≡ v) × (r.recipe.id ≡ i)

-- HEAD of a recipe in an intact store: none, or the stored version that the branch points at.
pub head_cases :
    {S : Type 0} (b : Backend S) (s : S) (i : Str)
    → IsIntact b s
    → (head b s i ≡ ok none)
      ⊎ ((ref : Str) × (r : VersionRecord) × (b.read_head_ref s i ≡ some ref)
          × (b.read_version s i ref ≡ some r)
          × (head b s i ≡ ok (some r)))
unfolding head
head_cases b s i intact = elim (Option-cases (b.read_head_ref s i)) [
  | inl e ↦ inl (rw (e, head) refl)
  | inr (ref, e) ↦
      let (r, found) = intact.refs i ref e in inr (ref, r, e, found, rw (e, head) (rw found refl))
]
