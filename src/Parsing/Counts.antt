-- ===== src/Parsing/Counts.antt =====
-- scrape_ingestor.go, numeric: what the samples of metrics read in the items of the actors.
use jg_smm.Prelude.{
  ◌≡◌, refl, Bool, true, false, not, List, [], ◌∷◌, ◌++◌, Option, none, some, String, ℕ, arith, All,
  Bool-cases, if◌then◌else◌, inl, inr,
}
use jg_smm.Prelude.Int.{ℤ, pos}
use jg_smm.Prelude.Text.{codes}
use jg_smm.Domain.Status.{instagram, threads}
use jg_smm.Store.Workers.{same_text}
use jg_smm.Users.{is_empty}
use jg_smm.Domain.Datasets.{
  Value, pointer, Metrics, ScrapeItem, IgPost, IgComment, IgSearchPost, ThreadsPost, Window,
  Decoders,
}
use jg_smm.Parsing.{
  with_views, prepend_if, or_int, threads_item, in_window, or_default, is_array, lacks_search,
  parse_items, parse_ig_post_row, parse_ig_search_row, parse_ig_search_post, parse_ig_comments,
  parse_threads_row, parse_ig_probed, ig_post_items, ig_post_item, search_items, keep_in,
  comment_item, metric, numeric, metrics_int, metrics_int_ptr,
}

abbrev pub is_pointer : Value → Bool
is_pointer (pointer n) = true
is_pointer _ = false

-- Every value is a pointer, as the parsers of the actors make it.
abbrev pub IsPointed : Metrics → Type 0
IsPointed [] = Unit
IsPointed ((k, v) ∷ m) = (is_pointer v ≡ true) × IsPointed m

abbrev pub Pointed : ScrapeItem → Type 0
Pointed item = IsPointed item.metrics

abbrev pub AllPointed : Option (List ScrapeItem) → Type 0
AllPointed none = Unit
AllPointed (some items) = All Pointed items

with_views-IsPointed :
    (views : Option ℤ) (m : Metrics) → IsPointed m → IsPointed (with_views views m)
with_views-IsPointed none m h = h
with_views-IsPointed (some n) m h = more m h
  where
    more : (m : Metrics) → IsPointed m → IsPointed (m ++ (("views", pointer (some n)) ∷ []))
    more [] h = (refl, tt)
    more (kv ∷ m) (p, h) = (p, more m h)

prepend_if-Pointed :
    (b : Bool) (item : ScrapeItem) (rest : List ScrapeItem)
    → Pointed item
    → All Pointed rest
    → All Pointed (prepend_if b item rest)
prepend_if-Pointed true item rest p h = (p, h)
prepend_if-Pointed false item rest p h = h

if-AllPointed :
    (b : Bool) (x y : Option (List ScrapeItem))
    → AllPointed x
    → AllPointed y
    → AllPointed (if b then x else y)
if-AllPointed true x y p q = p
if-AllPointed false x y p q = q

module _ (decoders : Decoders) where
  numeric-pointer : (v : Value) → is_pointer v ≡ true → numeric decoders v ≡ none
  numeric-pointer (pointer n) h = refl
  numeric-pointer v h = ground arith

  metric-numeric :
      (m : Metrics) (k : String) → IsPointed m → numeric decoders (metric decoders m k) ≡ none
  metric-numeric [] k h = refl
  metric-numeric ((key, v) ∷ m) k (p, h) = elim (Bool-cases (same_text (codes key) (codes k))) [
    | inl e ↦ rw e (numeric-pointer v p)
    | inr e ↦ rw e (metric-numeric m k h)
  ]

  -- Numbers behind pointers are read as absent, under whatever keys.
  pub metrics_int-pointer :
      (m : Metrics) (ks : List String) → IsPointed m → metrics_int decoders m ks ≡ pos 0
  unfolding metrics_int
  metrics_int-pointer m [] h = refl
  metrics_int-pointer m (k ∷ ks) h =
      rw (metrics_int, metric-numeric m k h) (metrics_int-pointer m ks h)

  pub metrics_int_ptr-pointer :
      (m : Metrics) (ks : List String) → IsPointed m → metrics_int_ptr decoders m ks ≡ none
  unfolding metrics_int_ptr
  metrics_int_ptr-pointer m [] h = refl
  metrics_int_ptr-pointer m (k ∷ ks) h =
      rw (metrics_int_ptr, metric-numeric m k h) (metrics_int_ptr-pointer m ks h)

  comments-Pointed :
      (post : ScrapeItem) (cs : List IgComment) → All Pointed (parse_ig_comments decoders post cs)
  comments-Pointed post [] = tt
  comments-Pointed post (c ∷ cs) =
      prepend_if-Pointed _ (comment_item decoders post c) _ (refl, tt) (comments-Pointed post cs)

  post-AllPointed : (w : Window) (x : Option IgPost) → AllPointed (parse_ig_post_row decoders w x)
  post-AllPointed w none = tt
  post-AllPointed w (some src) = if-AllPointed (not (is_empty src.error)) none _ tt (
      if-AllPointed (is_empty (or_default src.short_code src.id)) none _ tt (
        if-AllPointed (in_window (decoders.parse_time src.timestamp) w)
          (some (ig_post_items decoders (or_default src.short_code src.id) src)) (some [])
          (
            with_views-IsPointed src.video_view_count
                (("likes", pointer src.likes_count)
                  ∷ (("comments", pointer src.comments_count) ∷ []))
                (refl, (refl, tt)),
            comments-Pointed (ig_post_item decoders (or_default src.short_code src.id) src)
                src.latest_comments,
          )
          tt))

  kept-Pointed :
      (w : Window) (x : Option IgSearchPost) (rest : List ScrapeItem)
      → All Pointed rest
      → All Pointed (keep_in decoders w (parse_ig_search_post decoders x) rest)
  kept-Pointed w none rest h = h
  kept-Pointed w (some p) rest h = elim (Bool-cases (is_empty p.code)) [
    | inl e ↦ rw e h
    | inr e ↦ rw e (
        prepend_if-Pointed _ _ rest
          (with_views-IsPointed (or_int (p.view_count ∷ (p.play_count ∷ [])))
            (("likes", pointer p.like_count) ∷ (("comments", pointer p.comment_count) ∷ []))
            (refl, (refl, tt)))
          h)
  ]

  search-Pointed : (w : Window) (ps : List (List ℕ)) → All Pointed (search_items decoders w ps)
  search-Pointed w [] = tt
  search-Pointed w (p ∷ ps) = kept-Pointed w _ _ (search-Pointed w ps)

  search_row-AllPointed :
      (w : Window) (x : Option (List (List ℕ) × String))
      → AllPointed (parse_ig_search_row decoders w x)
  search_row-AllPointed w none = tt
  search_row-AllPointed w (some (posts, error)) =
      if-AllPointed (is_empty error) _ none (search-Pointed w posts) tt

  probed-AllPointed :
      (raw : List ℕ) (w : Window) (x : Option (Option String × List ℕ))
      → AllPointed (parse_ig_probed decoders raw w x)
  probed-AllPointed raw w none = tt
  probed-AllPointed raw w (some (term, posts)) =
      if-AllPointed (lacks_search decoders term posts) _ _ (post-AllPointed w _)
        (if-AllPointed (is_array decoders posts) _ (some []) (search_row-AllPointed w _) tt)

  abbrev reply_counts : ThreadsPost → Metrics
  reply_counts src =
      ("likes", pointer src.like_count)
      ∷ (("comments", pointer src.reply_count)
          ∷ ((
            "shares",
            pointer (or_int (src.share_count ∷ (src.repost_count ∷ (src.quote_count ∷ [])))),
          )
              ∷ []))

  threads-AllPointed :
      (w : Window) (x : Option ThreadsPost) → AllPointed (parse_threads_row decoders w x)
  threads-AllPointed w none = tt
  threads-AllPointed w (some src) = if-AllPointed (not (is_empty src.error)) none _ tt (
      if-AllPointed (is_empty src.post_code) none _ tt (
        if-AllPointed (in_window (decoders.parse_time src.created_at) w)
          (some (threads_item decoders src ∷ [])) (some [])
          (with_views-IsPointed src.view_count (reply_counts src) (refl, (refl, (refl, tt))), tt)
          tt))

  -- The items of the two actors carry their numbers behind pointers only.
  pub parse_items-AllPointed :
      (raw : List ℕ) (w : Window)
      → AllPointed (parse_items decoders (some instagram) raw w)
        × AllPointed (parse_items decoders (some threads) raw w)
  unfolding parse_items
  parse_items-AllPointed raw w = (
    probed-AllPointed raw w (decoders.probe raw),
    threads-AllPointed w (decoders.threads_post raw),
  )
