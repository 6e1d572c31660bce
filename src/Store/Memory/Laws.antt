-- ===== src/Store/Memory/Laws.antt =====
-- The backend in memory reads what was written last.
use snap_cook.Common.{
  Str, str_eq, str_eq_iff, ◌≡◌, refl, sym, ◌∙◌, ap, ◌&&◌, some, inl, inr, if◌then◌else◌, Bool-cases,
}
use snap_cook.Dict.{Dict, get, set, get-set}
use snap_cook.Store.{VersionRecord}
use snap_cook.Store.Memory.{
  MemoryStore, or_empty, read_head_ref, write_head_ref, versions_of, put_version, read_version,
  memory,
}
use snap_cook.Store.Laws.{IsLawful}

versions_of-put_version :
    (i : Str) (r : VersionRecord) (s : MemoryStore) (j : Str)
    → versions_of (put_version i r s) j
      ≡ (if str_eq i j then set r.version_id r (versions_of s i) else versions_of s j)
unfolding versions_of put_version
versions_of-put_version i r s j =
    ap or_empty (get-set i j (set r.version_id r (versions_of s i)) s.versions)
    ∙ elim (Bool-cases (str_eq i j)) [ inl e ↦ rw e refl | inr e ↦ rw e refl ]

read-put_version :
    (i : Str) (r : VersionRecord) (s : MemoryStore) (j v : Str)
    → read_version (put_version i r s) j v
      ≡ (if str_eq i j && str_eq r.version_id v then some r else read_version s j v)
unfolding read_version
read-put_version i r s j v =
    ap (λ (d : Dict VersionRecord). get d v) (versions_of-put_version i r s j)
    ∙ elim (Bool-cases (str_eq i j)) [
      | inl e ↦ rw (e, sym ((str_eq_iff i j).0 e)) (get-set r.version_id v r (versions_of s i))
      | inr e ↦ rw e refl
    ]

pub memory-IsLawful : IsLawful memory
unfolding put_version read_version read_head_ref write_head_ref versions_of
memory-IsLawful = record {
  read_put = read-put_version;
  ref_put = λ i r s j. refl;
  read_write = λ i v s j w. refl;
  ref_write = λ i v s j. get-set i j v s.heads;
}
