-- ===== src/Cache/Index.antt =====
-- cache/repository.py: the cache index, a dictionary of entries that is written to a file after each
-- change. The text of the file, and what json and pydantic read back of it, are parameters.
use ppt_video_workbench_v.Base.{
  ℕ, List, [], ◌∷◌, Option, none, some, Bool, ◌&&◌, ◌||◌, ◌==◌, ltb, find, sorted, is_some, String,
  if◌then◌else◌,
}
use ppt_video_workbench_v.Base.Int.{ℤ, pos, negsuc}

-- `ValueError`, `KeyError`, `CacheGcError`, `OSError`.
pub data CacheError : Type 0 where
  value_error unknown_key gc_error os_error : CacheError

pub data Result {ℓ} (A : Type ℓ) : Type ℓ where
  ok : A → Result A
  err : CacheError → Result A

-- A cache key is 64 hexadecimal digits: the number they write has the order of the texts.
pub record CacheEntry : Type 0 where
  pub cache_key : ℕ
  pub project_id : ℕ
  pub artifact_hash : ℕ
  pub relative_path : String
  pub size_bytes : ℕ
  pub dependencies : List String
  pub rebuildable : Bool
  pub protected : Bool
  pub lease_count : ℕ
  pub created_at : ℕ
  pub last_accessed_at : ℕ

-- `_entries` in the order of insertion, and the text of the file at `index_path`.
pub record CacheRepository (File : Type 0) : Type 0 where
  pub entries : List CacheEntry
  pub index : Option File

-- The text that a list of entries is dumped to, the entries of a text, none where it cannot be
-- read or is not valid, and whether a text can be written.
pub record Disk (File : Type 0) : Type 0 where
  pub dump : List CacheEntry → File
  pub parse : File → Option (List CacheEntry)
  pub writes : File → Bool

abbrev pub key_of : CacheEntry → ℕ
key_of e = e.cache_key

abbrev pub size_of : CacheEntry → ℕ
size_of e = e.size_bytes

-- `entries.get(key)`
abbrev pub entry_at : ℕ → List CacheEntry → Option CacheEntry
entry_at key es = find (λ e. key_of e == key) es

-- `entries[entry.cache_key] = entry`
unfoldable pub set_entry : CacheEntry → List CacheEntry → List CacheEntry
set_entry e [] = e ∷ []
set_entry e (x ∷ xs) =
    let rest = set_entry e xs in if key_of x == key_of e then e ∷ xs else x ∷ rest

-- `entries.pop(key, None)`
unfoldable pub pop_entry : ℕ → List CacheEntry → List CacheEntry
pop_entry key [] = []
pop_entry key (x ∷ xs) = let rest = pop_entry key xs in if key_of x == key then xs else x ∷ rest

-- The order of the pair of the last access and the key.
abbrev pub older : CacheEntry → CacheEntry → Bool
older a b =
    ltb a.last_accessed_at b.last_accessed_at
    || ((a.last_accessed_at == b.last_accessed_at) && ltb a.cache_key b.cache_key)

-- `list`
abbrev pub list : {File : Type 0} → CacheRepository File → List CacheEntry
list r = sorted older r.entries

-- `_persist`, after the dictionary became `es`, and the answer. The file is replaced at once, so
-- where the text cannot be written the old file stays, and the dictionary has the change all the
-- same.
abbrev pub persist :
    {File : Type 0} {A : Type 0}
    → Disk File
    → A
    → List CacheEntry
    → CacheRepository File
    → Result A × CacheRepository File
persist disk a es r =
    let file = disk.dump (sorted older es) in
    if disk.writes file
    then (ok a, record { entries = es; index = some file })
    else (err os_error, record r { entries = es })

-- `{entry.cache_key: entry for entry in entries}`, after those already there.
unfoldable pub dict_of : List CacheEntry → List CacheEntry → List CacheEntry
unfolding set_entry
dict_of acc [] = acc
dict_of acc (e ∷ es) = dict_of (set_entry e acc) es

abbrev pub load_parsed : Option (List CacheEntry) → List CacheEntry
load_parsed none = []
load_parsed (some es) = dict_of [] es

-- `_load`: nothing where there is no file, or where its text cannot be read or is not valid.
unfoldable pub load : {File : Type 0} → Disk File → Option File → List CacheEntry
unfolding dict_of
load disk none = []
load disk (some file) = load_parsed (disk.parse file)

abbrev pub selected : CacheEntry → Option CacheEntry → CacheEntry
selected e none = e
selected e (some existing) = existing

abbrev pub accessed : ℕ → CacheEntry → CacheEntry
accessed now e = record e { last_accessed_at = now }

abbrev pub leased : ℕ → CacheEntry → CacheEntry
leased count e = record e { lease_count = count }

-- A call that may change the index.
pub data Call : Type 0 where
  put_call : CacheEntry → Call
  get_call : ℕ → Bool → ℕ → Call
  remove_call : ℕ → Call
  lease_call : ℕ → ℤ → Call

module _ {File : Type 0} (disk : Disk File) where
  -- `__init__`
  abbrev pub at_start : Option File → CacheRepository File
  at_start file = record { entries = load disk file; index = file }

  unfoldable pub put : CacheEntry → CacheRepository File → Result CacheEntry × CacheRepository File
  unfolding set_entry
  put e r =
      let chosen = selected e (entry_at e.cache_key r.entries) in
      persist disk chosen (set_entry chosen r.entries) r

  abbrev pub get_found :
      Bool
      → ℕ
      → CacheRepository File
      → Option CacheEntry
      → Result (Option CacheEntry) × CacheRepository File
  get_found touch now r none = (ok none, r)
  get_found touch now r (some e) =
      if touch
      then persist disk (some (accessed now e)) (set_entry (accessed now e) r.entries) r
      else (ok (some e), r)

  unfoldable pub get :
      ℕ → Bool → ℕ → CacheRepository File → Result (Option CacheEntry) × CacheRepository File
  unfolding set_entry
  get key touch now r = get_found touch now r (entry_at key r.entries)

  unfoldable pub remove :
      ℕ → CacheRepository File → Result (Option CacheEntry) × CacheRepository File
  unfolding pop_entry
  remove key r =
      let removed = entry_at key r.entries in
      if is_some removed then persist disk removed (pop_entry key r.entries) r else (ok removed, r)

  abbrev pub lease_found :
      ℕ → CacheRepository File → Option CacheEntry → Result CacheEntry × CacheRepository File
  lease_found count r none = (err unknown_key, r)
  lease_found count r (some e) =
      persist disk (leased count e) (set_entry (leased count e) r.entries) r

  unfoldable pub set_lease_count :
      ℕ → ℤ → CacheRepository File → Result CacheEntry × CacheRepository File
  unfolding set_entry
  set_lease_count key (negsuc n) r = (err value_error, r)
  set_lease_count key (pos count) r = lease_found count r (entry_at key r.entries)

  unfoldable pub after_call : Call → CacheRepository File → CacheRepository File
  unfolding put get remove set_lease_count
  after_call (put_call e) r = (put e r).1
  after_call (get_call key touch now) r = (get key touch now r).1
  after_call (remove_call key) r = (remove key r).1
  after_call (lease_call key count) r = (set_lease_count key count r).1

  unfoldable pub after_calls : List Call → CacheRepository File → CacheRepository File
  unfolding after_call
  after_calls [] r = r
  after_calls (c ∷ cs) r = after_calls cs (after_call c r)
