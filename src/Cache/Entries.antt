-- ===== src/Cache/Entries.antt =====
-- The dictionary of the cache index: assignment, removal, and a dictionary built from its values.
use ppt_video_workbench_v.Base.{
  ℕ, ◌+◌, ◌≡◌, refl, sym, subst, ◌∙◌, List, [], ◌∷◌, ◌++◌, Option, none, some, false, ◌==◌, sum_of,
  Distinct, if◌then◌else◌, arith, Bool-cases, Option-cases, inl, inr, ==_iff,
}
use mathlib.Core.List.{append_assoc, append-nil}
use ppt_video_workbench_v.Cache.Index.{
  CacheEntry, key_of, size_of, entry_at, set_entry, pop_entry, dict_of, load, Disk,
}

pub entry_at-set_entry :
    (k : ℕ) (e : CacheEntry) (xs : List CacheEntry)
    → entry_at k (set_entry e xs) ≡ (if key_of e == k then some e else entry_at k xs)
unfolding set_entry
entry_at-set_entry k e [] = refl
entry_at-set_entry k e (x ∷ xs) = ground (arith, entry_at-set_entry k e xs)

pub set_entry-Distinct :
    (e : CacheEntry) (xs : List CacheEntry) → Distinct key_of xs → Distinct key_of (set_entry e xs)
unfolding set_entry
set_entry-Distinct e [] d = (refl, tt)
set_entry-Distinct e (x ∷ xs) d = elim (Bool-cases (key_of x == key_of e)) [
  | inl t ↦ rw t (subst (λ k. entry_at k xs ≡ none) ((==_iff (key_of x) (key_of e)).0 t) d.0, d.1)
  | inr f ↦
      rw f
        (entry_at-set_entry (key_of x) e xs ∙ ground (arith, d.0, f), set_entry-Distinct e xs d.1)
]

pub entry_at-pop_entry :
    (k key : ℕ) (xs : List CacheEntry)
    → Distinct key_of xs
    → entry_at k (pop_entry key xs) ≡ (if key == k then none else entry_at k xs)
unfolding pop_entry
entry_at-pop_entry k key [] d = ground arith
entry_at-pop_entry k key (x ∷ xs) d = elim (Bool-cases (key_of x == key)) [
  | inl t ↦
      let absent : entry_at key xs ≡ none =
        subst (λ m. entry_at m xs ≡ none) ((==_iff (key_of x) key).0 t) d.0 in
      rw t (elim (Bool-cases (key == k)) [
        | inl s ↦ rw s (subst (λ m. entry_at m xs ≡ none) ((==_iff key k).0 s) absent)
        | inr g ↦ ground (arith, t, g)
      ])
  | inr f ↦ rw f (ground (arith, f, entry_at-pop_entry k key xs d.1))
]

pub pop_entry-Distinct :
    (key : ℕ) (xs : List CacheEntry) → Distinct key_of xs → Distinct key_of (pop_entry key xs)
unfolding pop_entry
pop_entry-Distinct key [] d = tt
pop_entry-Distinct key (x ∷ xs) d = elim (Bool-cases (key_of x == key)) [
  | inl t ↦ rw t d.1
  | inr f ↦ rw f (
    entry_at-pop_entry (key_of x) key xs d.1 ∙ ground (arith, d.0),
    pop_entry-Distinct key xs d.1,
  )
]

pub sum_of-pop_entry :
    (key : ℕ) (e : CacheEntry) (xs : List CacheEntry)
    → entry_at key xs ≡ some e
    → sum_of size_of (pop_entry key xs) + size_of e ≡ sum_of size_of xs
unfolding pop_entry
sum_of-pop_entry key e [] h = absurd (cc h)
sum_of-pop_entry key e (x ∷ xs) h = ground (arith, sum_of-pop_entry key e xs)

pub dict_of-Distinct :
    (acc es : List CacheEntry) → Distinct key_of acc → Distinct key_of (dict_of acc es)
unfolding dict_of
dict_of-Distinct acc [] d = d
dict_of-Distinct acc (e ∷ es) d = dict_of-Distinct (set_entry e acc) es (set_entry-Distinct e acc d)

set_entry-new :
    (e : CacheEntry) (xs : List CacheEntry)
    → entry_at (key_of e) xs ≡ none
    → set_entry e xs ≡ xs ++ e ∷ []
unfolding set_entry
set_entry-new e [] h = refl
set_entry-new e (x ∷ xs) h = elim (Bool-cases (key_of x == key_of e)) [
  | inl t ↦ absurd (cc (rw t at h))
  | inr f ↦ rw (f, set_entry-new e xs (rw f at h)) refl
]

entry_at-append :
    (k : ℕ) (xs : List CacheEntry) (e : CacheEntry) (es : List CacheEntry)
    → entry_at k (xs ++ e ∷ es) ≡ none
    → (key_of e == k) ≡ false
entry_at-append k [] e es h = ground (arith, h)
entry_at-append k (x ∷ xs) e es h = ground (arith, h, entry_at-append k xs e es)

absent_before :
    (xs : List CacheEntry) (e : CacheEntry) (es : List CacheEntry)
    → Distinct key_of (xs ++ e ∷ es)
    → entry_at (key_of e) xs ≡ none
absent_before [] e es d = refl
absent_before (x ∷ xs) e es d =
    let differ : (key_of x == key_of e) ≡ false =
      ground (arith, entry_at-append (key_of x) xs e es d.0) in
    rw (differ, absent_before xs e es d.1) refl

-- A dictionary of values with distinct keys lists them in their order.
dict_of-same : (acc es : List CacheEntry) → Distinct key_of (acc ++ es) → dict_of acc es ≡ acc ++ es
unfolding dict_of
dict_of-same acc [] d = sym (append-nil acc)
dict_of-same acc (e ∷ es) d =
    let new = set_entry-new e acc (absent_before acc e es d) in
    subst (λ xs. dict_of xs es ≡ acc ++ e ∷ es) (sym new)
      (dict_of-same (acc ++ e ∷ []) es
          (subst (Distinct key_of) (sym (append_assoc acc (e ∷ []) es)) d)
        ∙ append_assoc acc (e ∷ []) es)

-- The text of entries with distinct keys, where it can be read back, is loaded as those entries.
pub load-dump :
    {File : Type 0} (disk : Disk File) (es : List CacheEntry)
    → disk.parse (disk.dump es) ≡ some es
    → Distinct key_of es
    → load disk (some (disk.dump es)) ≡ es
unfolding load
load-dump disk es p d = rw p (dict_of-same [] es d)

pub load-Distinct :
    {File : Type 0} (disk : Disk File) (file : Option File) → Distinct key_of (load disk file)
unfolding load
load-Distinct disk none = tt
load-Distinct disk (some file) = elim (Option-cases (disk.parse file)) [
  | inl n ↦ rw n tt
  | inr (es, n) ↦ rw n (dict_of-Distinct [] es tt)
]
