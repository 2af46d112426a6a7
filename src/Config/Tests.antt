-- ===== src/Config/Tests.antt =====
-- Environments that are accepted and refused.
use linkpulse_link.Base.{◌≡◌, ◌≢◌, ◌↔◌, refl, Option, none, some, [], ◌∷◌, if◌then◌else◌}
use linkpulse_link.Base.Text.{Text, codes, text_eq}
use linkpulse_link.Base.Int.{negsuc, pos_part}
use linkpulse_link.Link.{Duration}
use linkpulse_link.Snowflake.{new}
use linkpulse_link.Config.{
  Env, Problem, not_a_number, no_dsn, worker_out_of_range, loaded, refused, candidate, load,
  split_non_empty,
}
use linkpulse_link.Config.Loading.{IsFine, load_iff, load-new}

-- No text is a duration.
abbrev unread : Text → Option Duration
unread v = none

abbrev good : Env
good key =
    if text_eq key (codes "POSTGRES_DSN")
    then some (codes "dsn")
    else if text_eq key (codes "WORKER_ID")
    then some (codes "7")
    else none

abbrev bad : Env
bad key =
    if text_eq key (codes "REDIS_DB")
    then some (codes "zero")
    else if text_eq key (codes "WORKER_ID")
    then some (codes "-1")
    else none

good_run : load unread good ≡ loaded (candidate unread good)
unfolding load text_eq linkpulse_link.Strconv.atoi linkpulse_link.Config.getenv
good_run = refl

-- All the problems are reported at once.
bad_run :
    load unread bad
    ≡ refused (
        not_a_number (codes "REDIS_DB") (codes "zero")
        ∷ no_dsn
        ∷ worker_out_of_range (negsuc 0)
        ∷ [])
unfolding load text_eq linkpulse_link.Strconv.atoi linkpulse_link.Config.getenv
bad_run = refl

load_iff_example : (load unread good ≡ loaded (candidate unread good)) ↔ IsFine unread good
load_iff_example = load_iff unread good

load-new_run : new (pos_part (candidate unread good).worker_id) ≢ none
load-new_run = load-new unread good (candidate unread good) good_run

split_run : split_non_empty (codes "a:1, b:2 ,,") ≡ codes "a:1" ∷ codes "b:2" ∷ []
unfolding split_non_empty linkpulse_link.Net.Strings.split_seq linkpulse_link.Net.Strings.trim_space
split_run = refl
