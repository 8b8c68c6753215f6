-- ===== src/Jobs/Publications.antt =====
-- `reserve_publication`, `publish_publication` and `reconcile_publication` of jobs/repository.py:
-- a publication is reserved by the current attempt of a job, published once, and marked corrupted
-- when its verifier rejects it. The SHA-256 of the encoded manifest is a parameter, `sha256`.
use ppt_video_workbench_v.Base.{
  ℕ, ◌+◌, String, [], ◌∷◌, ◌++◌, Option, none, some, Bool, true, false, not, ◌&&◌, ◌||◌, ◌==◌,
  str_eq, opt_eq, find, update_where, count_where, if◌then◌else◌,
}
use ppt_video_workbench_v.Jobs.Record.{
  Job, Publication, PublicationState, reserved, published, corrupted, valid_publication,
}
use ppt_video_workbench_v.Jobs.Store.{
  Db, M, Result, ok, err, not_found, validation, conflict, refuse_if, ◌>>◌,
}
use ppt_video_workbench_v.Jobs.Access.{job_of}

abbrev pub has_key : String → Publication → Bool
has_key key p = str_eq p.publication_key key

abbrev pub publication_of : String → Db → Option Publication
publication_of key db = find (has_key key) db.publications

abbrev pub is_reserved : PublicationState → Bool
is_reserved reserved = true
is_reserved _ = false

abbrev pub is_published : PublicationState → Bool
is_published published = true
is_published _ = false

-- `_to_publication`; an absent row is what `one()` raises on.
abbrev pub to_publication : Option Publication → Result Publication
to_publication none = err not_found
to_publication (some p) = if valid_publication p then ok p else err validation

abbrev pub current_attempt_id : Option Job → Option ℕ
current_attempt_id none = none
current_attempt_id (some j) = j.current_attempt_id

-- `_require_current_attempt`
unfoldable pub require_current_attempt : ℕ → ℕ → M Unit
require_current_attempt job attempt db =
    refuse_if (not (opt_eq (current_attempt_id (job_of job db)) (some attempt))) conflict db

abbrev pub reread : String → M Publication
reread key db = (to_publication (publication_of key db), db)

module _ (sha256 : String → String) where
  abbrev pub reservation : String → ℕ → ℕ → String → Publication
  reservation key job attempt manifest = record {
    publication_key = key;
    job_id = job;
    attempt_id = attempt;
    state = reserved;
    manifest_json = manifest;
    manifest_hash = sha256 manifest;
    published_at = none;
    revision = 1;
  }

  abbrev pub reserve_row : Publication → Option Publication → M Publication
  reserve_row new none db =
      reread new.publication_key (record db { publications = db.publications ++ new ∷ [] })
  reserve_row new (some p) db = (to_publication (some p), db)

  abbrev pub reserve_new : Publication → M Publication
  reserve_new new db = reserve_row new (publication_of new.publication_key db) db

  unfoldable pub reserve_publication : String → ℕ → ℕ → String → M Publication
  unfolding require_current_attempt valid_publication
  reserve_publication key job attempt manifest = do
    require_current_attempt job attempt
    reserve_new (reservation key job attempt manifest)

-- The WHERE of the UPDATE that publishes.
abbrev pub publishable : String → ℕ → ℕ → String → Publication → Bool
publishable key job attempt hash p =
    has_key key p
    && ((p.job_id == job)
        && ((p.attempt_id == attempt) && (str_eq p.manifest_hash hash && is_reserved p.state)))

abbrev pub published_row : ℕ → Publication → Publication
published_row now p = record p {
  state = published;
  published_at = some now;
  revision = p.revision + 1;
}

abbrev pub known : Option Publication → Result Publication
known none = err conflict
known (some p) = to_publication (some p)

-- An UPDATE that hit no row raises only if the key is unknown, and else returns the row as it is.
abbrev pub publish_rows : String → ℕ → ℕ → String → ℕ → M Publication
publish_rows key job attempt hash now db =
    let hit = publishable key job attempt hash in
    if count_where hit db.publications == 1
    then reread key
        (record db { publications = update_where hit (published_row now) db.publications })
    else (known (publication_of key db), db)

unfoldable pub publish_publication : String → ℕ → ℕ → String → ℕ → M Publication
unfolding require_current_attempt valid_publication
publish_publication key job attempt hash now = do
  require_current_attempt job attempt
  publish_rows key job attempt hash now

abbrev pub corrupted_row : Publication → Publication
corrupted_row p = record p { state = corrupted; revision = p.revision + 1 }

abbrev pub suspect : String → Publication → Bool
suspect key p = has_key key p && is_published p.state

abbrev pub reconcile_row : String → (Publication → Bool) → Option Publication → M Publication
reconcile_row key verifier none db = (err conflict, db)
reconcile_row key verifier (some p) db =
    if valid_publication p
    then if not (is_published p.state) || verifier p
      then (ok p, db)
      else reread key
          (record db { publications = update_where (suspect key) corrupted_row db.publications })
    else (err validation, db)

unfoldable pub reconcile_publication : String → (Publication → Bool) → M Publication
unfolding valid_publication
reconcile_publication key verifier db = reconcile_row key verifier (publication_of key db) db
