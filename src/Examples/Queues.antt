-- ===== src/Examples/Queues.antt =====
-- The queues of actions and scrapes, the choice of comments and the keys of callbacks, on small inputs.
use jg_smm.Prelude.{
  ℕ, String, ◌≡◌, ◌≤◌, refl, ◌≢◌, ◌++◌, [], ◌∷◌, List, Option, none, some, Bool, true, false,
  length, arith,
}
use jg_smm.Prelude.Text.{codes}
use jg_smm.Domain.Status.{instagram, JobType, JobStatus}
use jg_smm.Domain.Entities.{ScrapeJob}
use jg_smm.Domain.Template.{CommentTemplate, render}
use jg_smm.Store.{Db, Result, ok, err, driver}
use jg_smm.Queueing
use jg_smm.Queueing.{ActionItem, enqueue}
use jg_smm.Queueing.Batches.{Queued, enqueue-Queued}
use jg_smm.Scraping
use jg_smm.Scraping.{ScrapeConfig}
use jg_smm.Templates.{PickOutcome, weighted_pick, pick_from}
use jg_smm.Templates.Choice.{Lands, Shipped, weighted_pick-Lands, pick_from-Shipped}
use jg_smm.Callback.AttemptId.{parse_attempt_id}
use jg_smm.Callback.Keys.{parse_attempt_id-join, digit_codes}
use jg_smm.Generating.{Request, support, generate}
use jg_smm.Generating.Candidates.{Comments, generate-Comments}
use jg_smm.Examples.{sample_db}

abbrev queue_tools : Queueing.Tools
queue_tools = record {
  trim = λ s. s;
  parse = λ s. some (record { scheme = "https"; host = "example.org"; whole = s });
  new_target_id = λ db. 2;
  new_job_id = λ db. 6;
  keeps_texts = true;
  keeps_batches = true;
}

abbrev like_item : ActionItem
like_item = record {
  account_id = 7;
  target_url = "https://example.org/p";
  type = JobType.action_like;
  text = "";
}

enqueue-Queued_example :
    Queued 1_000 (like_item ∷ []) sample_db.jobs (enqueue queue_tools (like_item ∷ []) sample_db)
enqueue-Queued_example = enqueue-Queued queue_tools (like_item ∷ []) sample_db

abbrev scrape_job : ScrapeJob
scrape_job = record {
  id = 1;
  type = JobType.scrape_metric;
  target_id = 2;
  account_id = some 7;
  worker_id = none;
  status = JobStatus.running;
  scheduled_at = 10;
  started_at = some 10;
  finished_at = none;
  attempts = 1;
  error = none;
  created_at = 1;
}

abbrev scrape_db : Db
scrape_db = record sample_db { scrape_jobs = scrape_job ∷ [] }

abbrev scrape_tools : Scraping.Tools
scrape_tools = record {
  runner = some (λ job target db. err driver);
  draw = λ n db. 0;
  describe = λ prefix e. prefix;
}

abbrev scrape_config : ScrapeConfig
scrape_config = record {
  jitter_min = 5;
  jitter_max = 15;
  max_attempts = 3;
  backoff_base = 120;
  tick_budget = 20;
}

abbrev greeting : CommentTemplate
greeting = record {
  id = 4;
  platform = instagram;
  text = codes "hi {who}";
  vars = codes "who" ∷ [];
  weight = 3;
  banned_words = codes "spam" ∷ [];
  is_active = true;
}

abbrev farewell : CommentTemplate
farewell = record greeting { id = 5; text = codes "bye"; vars = []; weight = 1 }

abbrev draw_three : ℕ → ℕ
draw_three n = 3

abbrev draw_none : ℕ → ℕ
draw_none n = 0

weighted_pick-Lands_example :
    Lands 3 (greeting ∷ farewell ∷ []) (weighted_pick draw_three greeting (farewell ∷ []))
weighted_pick-Lands_example = weighted_pick-Lands draw_three greeting (farewell ∷ []) (omega arith)

abbrev trim_none : List ℕ → List ℕ
trim_none s = s

abbrev match_none : List ℕ → Option (List ℕ → Bool)
match_none raw = some (λ text. false)

abbrev name_all : List ℕ → Option (List ℕ)
name_all name = some (codes "all")

abbrev hi_all : PickOutcome
hi_all = record { template_id = 4; rendered_text = codes "hi all" }

hi_all-picked : pick_from trim_none match_none draw_none name_all (ok (greeting ∷ [])) ≡ ok hi_all
unfolding pick_from jg_smm.Domain.Template.rendered render jg_smm.Prelude.Text.has_prefix
    jg_smm.Domain.Template.compile_banned jg_smm.Domain.Template.match_banned
hi_all-picked = refl

pick_from-Shipped_example :
    Shipped trim_none match_none name_all (weighted_pick draw_none greeting []) hi_all
pick_from-Shipped_example =
    pick_from-Shipped trim_none match_none draw_none name_all greeting [] hi_all hi_all-picked

parse_attempt_id-join_example :
    parse_attempt_id (codes "a1" ++ (b':' ∷ digit_codes (1 ∷ 2 ∷ []))) ≡ some (codes "a1", 12)
parse_attempt_id-join_example =
    parse_attempt_id-join b'a' (b'1' ∷ []) 1 (2 ∷ []) (ground arith, (ground arith, tt))
      (omega arith, (omega arith, tt)) (omega arith) (omega arith)

abbrev one_request : Request
one_request = record { mode = support; count = 1 }

abbrev answer_lines : ℕ → Result (List (List ℕ))
answer_lines n = ok (codes "x" ∷ codes "nice one" ∷ codes "so true" ∷ [])

one_comment :
    generate trim_none trim_none [] true answer_lines one_request ≡ ok (codes "nice one" ∷ [])
unfolding generate
one_comment = refl

generate-Comments_example : Comments trim_none trim_none [] 1 (codes "nice one" ∷ []) × (1 ≤ 5)
generate-Comments_example =
    generate-Comments trim_none trim_none [] true answer_lines one_request (codes "nice one" ∷ [])
      one_comment
