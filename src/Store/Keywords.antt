-- ===== src/Store/Keywords.antt =====
-- apps/api/internal/repository/keyword_batch.go with its queries (apps/api/db/queries/
-- keyword_batch.sql) and the constraints of the migration 000014.
use jg_smm.Prelude.{
  ℕ, Bool, false, not, ◌&&◌, ◌||◌, ◌==◌, ltb, if◌then◌else◌, List, ◌∷◌, Option, none, some, find,
  any, length,
}
use jg_smm.Prelude.Table.{update_where}
use jg_smm.Domain.Content.{KeywordBatch, KeywordStatus, is_terminal}
use jg_smm.Store.{Db, M, Result, ok, err, not_found, driver, query}
use jg_smm.Store.Users.{has_user_id}
use jg_smm.Store.Posts.{is_blank, with_content, has_post_id}

abbrev pub has_batch_id : ℕ → KeywordBatch → Bool
has_batch_id i b = b.id == i

abbrev pub new_batch : ℕ → ℕ → KeywordBatch → KeywordBatch
new_batch i now b = record b {
  id = i;
  apify_run_id = none;
  items_read = 0;
  posts_count = 0;
  comments_count = 0;
  error = none;
  created_at = now;
  finished_at = none;
}

abbrev pub lacks_creator : Option ℕ → Db → Bool
lacks_creator none db = false
lacks_creator (some u) db = not (any (has_user_id u) db.users)

-- The checks on the keywords, the number of posts and the actor, and the reference to a user.
abbrev pub violates : KeywordBatch → Db → Bool
violates b db =
    length b.keywords == 0
    || (ltb 5 (length b.keywords)
        || (b.max_posts == 0
            || (ltb 200 b.max_posts || (is_blank b.actor_id || lacks_creator b.created_by db))))

unfoldable pub create_keyword_batch : (Db → ℕ) → KeywordBatch → M KeywordBatch
create_keyword_batch new_id b = query λ db. if violates b db then (err driver, db) else (
  ok (new_batch (new_id db) db.now b),
  with_content
      (λ c. record c { keyword_batches = new_batch (new_id db) db.now b ∷ c.keyword_batches }) db,
)

abbrev pub return_batch : Option KeywordBatch → Db → Result KeywordBatch × Db
return_batch none db = (err not_found, db)
return_batch (some b) db = (ok b, db)

unfoldable pub get_keyword_batch : ℕ → M KeywordBatch
get_keyword_batch i = query λ db. return_batch (find (has_batch_id i) db.content.keyword_batches) db

abbrev pub coalesce : Option ℕ → Option ℕ → Option ℕ
coalesce none old = old
coalesce (some i) old = some i

-- The end that is written: the one that is given, or the present for a terminal status, or none.
abbrev pub end_of : Option ℕ → KeywordStatus → ℕ → Option ℕ
end_of (some t) status now = some t
end_of none status now = if is_terminal status then some now else none

abbrev pub updated_batch : KeywordBatch → ℕ → KeywordBatch → KeywordBatch
updated_batch new now b = record b {
  status = new.status;
  apify_run_id = coalesce new.apify_run_id b.apify_run_id;
  items_read = new.items_read;
  posts_count = new.posts_count;
  comments_count = new.comments_count;
  error = new.error;
  finished_at = end_of new.finished_at new.status now;
}

unfoldable pub update_keyword_batch : KeywordBatch → M KeywordBatch
unfolding update_where
update_keyword_batch new = query λ db.
    let rows =
      update_where (has_batch_id new.id) (updated_batch new db.now) db.content.keyword_batches in
    return_batch (find (has_batch_id new.id) rows)
      (with_content (λ c. record c { keyword_batches = rows }) db)

abbrev pub is_pair : ℕ → ℕ → ℕ × ℕ → Bool
is_pair batch post (b, p) = b == batch && p == post

abbrev pub add_pair : ℕ → ℕ → List (ℕ × ℕ) → List (ℕ × ℕ)
add_pair batch post pairs = if any (is_pair batch post) pairs then pairs else (batch, post) ∷ pairs

-- ON CONFLICT DO NOTHING.
unfoldable pub create_keyword_batch_post : ℕ → ℕ → M (Unit {0})
create_keyword_batch_post batch post = query λ db.
    if any (has_batch_id batch) db.content.keyword_batches
      && any (has_post_id post) db.content.posts
    then (
      ok tt,
      with_content (λ c. record c { batch_posts = add_pair batch post c.batch_posts }) db,
    )
    else (err driver, db)
