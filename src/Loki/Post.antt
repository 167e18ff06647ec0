-- ===== src/Loki/Post.antt =====
-- loki.c: the thread that posts the messages, and stops the logging behind too many errors in a row.
pub mod Stops
use csh.Prelude.{ℕ, ◌+◌, Option, none, some, List, [], ◌∷◌, Bool, true, false, if◌then◌else◌, ltb}

-- `loki_running`, `curl_err_count`, and the number of messages taken from the queue and freed
pub record Poster : Type 0 where
  pub running : Bool
  pub curl_err_count : ℕ
  pub freed : ℕ

-- behind `curl_easy_perform`, with whether it returned CURLE_OK
unfoldable pub after_post : Bool → Poster → Poster
after_post true p = record p { curl_err_count = 0; freed = p.freed + 1 }
after_post false p =
    if ltb 5 (p.curl_err_count + 1)
    then record { running = false; curl_err_count = 0; freed = p.freed + 1 }
    else record p { curl_err_count = p.curl_err_count + 1; freed = p.freed + 1 }

-- a round of the thread; none if no message is received
unfoldable pub post_round : Option Bool → Poster → Poster
unfolding after_post
post_round none p = p
post_round (some ok) p = after_post ok p

unfoldable pub post_thread : List (Option Bool) → Poster → Poster
unfolding post_round
post_thread [] p = p
post_thread (r ∷ rounds) p = post_thread rounds (if p.running then post_round r p else p)
