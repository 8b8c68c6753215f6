-- ===== src/Cache/GcPending.antt =====
-- The loop of a real run of the collector (cache/gc.py): what it has still to see, and what an
-- eviction does.
use ppt_video_workbench_v.Base.{
  ℕ, ◌-◌, ◌≤◌, ◌≡◌, ◌⊎◌, ◌↔◌, ◌<◌, refl, sym, ap, subst, ◌∙◌, List, ◌∷◌, none, some, true, false,
  ◌==◌, sum_of, sorted, Distinct, if◌then◌else◌, arith, Bool-cases, inl, inr, ==_iff, ==_refl,
}
use ppt_video_workbench_v.Cache.Index.{
  CacheEntry, CacheRepository, Disk, persist, older, key_of, size_of, entry_at, pop_entry,
}
use ppt_video_workbench_v.Cache.Entries.{entry_at-pop_entry, pop_entry-Distinct, sum_of-pop_entry}
use ppt_video_workbench_v.Cache.Gc.{Store, skipped, evict}

abbrev pub entries_of : {File : Type 0} → Store File → List CacheEntry
entries_of s = s.repository.entries

abbrev pub total : {File : Type 0} → Store File → ℕ
total s = sum_of size_of (entries_of s)

-- The entries that the loop has still to see, against the repository.
pub record Pending {File : Type 0} (es : List CacheEntry) (projected : ℕ) (s : Store File)
    : Type 0 where
  pub distinct : Distinct key_of (entries_of s)
  pub apart : Distinct key_of es
  pub stored :
      (k : ℕ) (e : CacheEntry) → entry_at k es ≡ some e → entry_at k (entries_of s) ≡ some e
  pub seen :
      (k : ℕ) (e : CacheEntry)
      → entry_at k (entries_of s) ≡ some e
      → (skipped e ≡ true) ⊎ (entry_at k es ≡ some e)
  pub size : projected ≡ total s

-- What was there and is passed over is there still, and nothing else came.
pub record Frees {File : Type 0} (low : ℕ) (s : Store File) (projected : ℕ) (t : Store File)
    : Type 0 where
  pub kept :
      (k : ℕ) (e : CacheEntry)
      → entry_at k (entries_of s) ≡ some e
      → skipped e ≡ true
      → entry_at k (entries_of t) ≡ some e
  pub only :
      (k : ℕ) (e : CacheEntry)
      → entry_at k (entries_of t) ≡ some e
      → entry_at k (entries_of s) ≡ some e
  pub size : projected ≡ total t
  pub smaller : total t ≤ total s
  pub enough :
      (total t ≤ low)
      ⊎ ((k : ℕ) (e : CacheEntry) → entry_at k (entries_of t) ≡ some e → skipped e ≡ true)

-- An entry that a collector may not evict.
abbrev pub Spared : CacheEntry → Type 0
Spared e = (e.protected ≡ true) ⊎ ((e.rebuildable ≡ false) ⊎ (0 < e.lease_count))

pub skipped_iff : (e : CacheEntry) → (skipped e ≡ true) ↔ Spared e
skipped_iff e = ground arith

-- From one store to another: the entries that may not go are there still, none is new or changed, and
-- the bytes left fit the low watermark or all of the entries left may not go.
pub record Leaves {File : Type 0} (low : ℕ) (s t : Store File) : Type 0 where
  pub kept :
      (k : ℕ) (e : CacheEntry)
      → entry_at k (entries_of s) ≡ some e
      → Spared e
      → entry_at k (entries_of t) ≡ some e
  pub only :
      (k : ℕ) (e : CacheEntry)
      → entry_at k (entries_of t) ≡ some e
      → entry_at k (entries_of s) ≡ some e
  pub enough :
      (total t ≤ low) ⊎ ((k : ℕ) (e : CacheEntry) → entry_at k (entries_of t) ≡ some e → Spared e)

pub Frees-Leaves :
    {File : Type 0} (low : ℕ) (s : Store File) (n : ℕ) (t : Store File)
    → Frees low s n t
    → Leaves low s t
Frees-Leaves low s n t f = record {
  kept = λ k e h w. f.kept k e h ((skipped_iff e).1 w);
  only = f.only;
  enough = elim f.enough [ inl l ↦ inl l | inr g ↦ inr (λ k e h. (skipped_iff e).0 (g k e h)) ];
}

pub first_found : (e : CacheEntry) (es : List CacheEntry) → entry_at (key_of e) (e ∷ es) ≡ some e
first_found e es = rw (==_refl (key_of e)) refl

pub some_eq : {a b : CacheEntry} → some a ≡ some b → a ≡ b
some_eq h = cc

pub none_some : {A : Type 0} {a : CacheEntry} → none ≡ some a → A
none_some h = absurd (cc h)

apart_key :
    (k : ℕ) (e x : CacheEntry) (es : List CacheEntry)
    → entry_at (key_of e) es ≡ none
    → entry_at k es ≡ some x
    → (key_of e == k) ≡ false
apart_key k e x es a h = elim (Bool-cases (key_of e == k)) [
  | inr f ↦ f
  | inl t ↦ none_some (sym (subst (λ m. entry_at m es ≡ none) ((==_iff (key_of e) k).0 t) a) ∙ h)
]

pub pass :
    {File : Type 0} (e : CacheEntry) (es : List CacheEntry) (projected : ℕ) (s : Store File)
    → skipped e ≡ true
    → Pending (e ∷ es) projected s
    → Pending es projected s
pass e es projected s b p = record {
  distinct = p.distinct;
  apart = p.apart.1;
  stored = λ k x h. p.stored k x (rw (apart_key k e x es p.apart.0 h, h) refl);
  seen = λ k x h. elim (p.seen k x h) [
    | inl t ↦ inl t
    | inr t ↦ elim (Bool-cases (key_of e == k)) [
      | inl y ↦ inl (subst (λ z. skipped z ≡ true) (some_eq (rw y at t)) b)
      | inr y ↦ inr (rw y at t)
    ]
  ];
  size = p.size;
}

-- Whether or not the file is written, the dictionary has the change.
persist-entries :
    {File : Type 0} {A : Type 0} (disk : Disk File) (a : A) (es : List CacheEntry)
    (r : CacheRepository File)
    → (persist disk a es r).1.entries ≡ es
persist-entries disk a es r = elim (Bool-cases (disk.writes (disk.dump (sorted older es)))) [
  | inl t ↦ rw t refl
  | inr f ↦ rw f refl
]

evicted_entries :
    {File : Type 0} (disk : Disk File) (e : CacheEntry) (path : ℕ) (s : Store File)
    → entry_at (key_of e) (entries_of s) ≡ some e
    → entries_of (evict disk e path s) ≡ pop_entry e.cache_key (entries_of s)
unfolding evict
evicted_entries disk e path s h =
    rw h (persist-entries disk (some e) (pop_entry e.cache_key (entries_of s)) s.repository)

pub drop :
    {File : Type 0} (disk : Disk File) (e : CacheEntry) (es : List CacheEntry) (projected : ℕ)
    (path : ℕ) (s : Store File)
    → Pending (e ∷ es) projected s
    → Pending es (projected - e.size_bytes) (evict disk e path s)
drop disk e es projected path s p =
    let here = p.stored (key_of e) e (first_found e es) in
    let same = evicted_entries disk e path s here in
    let gone = entry_at-pop_entry in
    record {
      distinct =
          subst (Distinct key_of) (sym same)
            (pop_entry-Distinct e.cache_key (entries_of s) p.distinct);
      apart = p.apart.1;
      stored = λ k x h.
          let other = apart_key k e x es p.apart.0 h in
          ap (entry_at k) same
          ∙ gone k e.cache_key (entries_of s) p.distinct
          ∙ rw other (p.stored k x (rw (other, h) refl));
      seen = λ k x h.
          let left =
            sym (gone k e.cache_key (entries_of s) p.distinct) ∙ sym (ap (entry_at k) same) ∙ h in
          elim (Bool-cases (key_of e == k)) [
            | inl y ↦ none_some (rw y at left)
            | inr y ↦ elim (p.seen k x (rw y at left)) [ inl t ↦ inl t | inr t ↦ inr (rw y at t) ]
          ];
      size = omega (
        arith,
        p.size,
        ap (sum_of size_of) same,
        sum_of-pop_entry e.cache_key e (entries_of s) here,
      );
    }

pub evict-Frees :
    {File : Type 0} (disk : Disk File) (e : CacheEntry) (es : List CacheEntry)
    (projected low path n : ℕ) (s t : Store File)
    → skipped e ≡ false
    → Pending (e ∷ es) projected s
    → Frees low (evict disk e path s) n t
    → Frees low s n t
evict-Frees disk e es projected low path n s t b p f =
    let here = p.stored (key_of e) e (first_found e es) in
    let same = evicted_entries disk e path s here in
    let gone : (k : ℕ)
        → entry_at k (entries_of (evict disk e path s))
          ≡ (if e.cache_key == k then none else entry_at k (entries_of s)) =
      λ k. ap (entry_at k) same ∙ entry_at-pop_entry k e.cache_key (entries_of s) p.distinct in
    record {
      kept = λ k x h w.
          f.kept k x
            (elim (Bool-cases (key_of e == k)) [
              | inr y ↦ gone k ∙ rw y h
              | inl y ↦
                  let k_eq = (==_iff (key_of e) k).0 y in
                  let x_eq : e ≡ x =
                    some_eq (sym here ∙ ap (λ m. entry_at m (entries_of s)) k_eq ∙ h) in
                  absurd (cc (sym b ∙ ap skipped x_eq ∙ w))
            ])
            w;
      only = λ k x h.
          let left = sym (gone k) ∙ f.only k x h in
          elim (Bool-cases (key_of e == k)) [
            | inl y ↦ none_some (rw y at left)
            | inr y ↦ rw y at left
          ];
      size = f.size;
      smaller = omega (
        arith,
        f.smaller,
        ap (sum_of size_of) same,
        sum_of-pop_entry e.cache_key e (entries_of s) here,
      );
      enough = f.enough;
    }
