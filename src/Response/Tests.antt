-- ===== src/Response/Tests.antt =====
-- Runs of the response and of the two goroutines, and their theorems at concrete ones.
use cdp_cache.Base.{◌≡◌, ◌≢◌, refl, ◌⊎◌, Bool, true, false, none, some, List, [], ◌∷◌, ◌++◌}
use cdp_cache.Base.Text.{Str, codes}
use cdp_cache.Response.{
  BackendOps, Response, new_response, write_header, set_body, wait_headers, wait_body, write,
  write_to_body, write_implicit_header, close, finish_close, get_reader,
}
use cdp_cache.Response.Fetch.{
  Action, Plan, Handler, Upstream, Sys, upstream_step, handler_step, run, start, act, answer,
}
use cdp_cache.Response.Fetch.Errors.{Fetching, goes, begin, upstream_goes, handler_goes, pop_or_nil}
use cdp_cache.Response.Fetch.Errors.Hidden.{write_hides_error}
use cdp_cache.Response.Fetch.Silent.{silent_upstream_deadlocks}
use cdp_cache.Response.Fetch.Good.{moves}
use cdp_cache.Response.Fetch.Progress.{upstream_answers}

-- A backend that keeps the bytes written, and whose reader is a copy of them.
abbrev in_memory_ops : BackendOps Str Str
in_memory_ops = record {
  write = λ b p. (b ++ p, (0, none));
  flush = λ b. b;
  close = λ b. b;
  clean = λ b. none;
  get_reader = λ b. some b;
  length = λ b. 0;
}

abbrev plain : Str → Str
plain b = codes "text/plain"

abbrev frozen : Response Str
frozen = record new_response { code = 404; wrote_header = true; body = some [] }

abbrev only_sets : List Action
only_sets = Action.sets (codes "Etag") (codes "1") ∷ []

abbrev script : List Action
script = Action.writes_header 200 ∷ Action.writes (codes "a") ∷ []

abbrev turns : List Bool
turns = true ∷ false ∷ true ∷ false ∷ true ∷ true ∷ false ∷ []

silent_upstream_deadlocks_example :
    ((run in_memory_ops plain Plan.public_body [] turns
        (start in_memory_ops plain Plan.public_body [] only_sets)).handler
      ≡ Handler.waiting)
    × ((run in_memory_ops plain Plan.public_body [] turns
          (start in_memory_ops plain Plan.public_body [] only_sets)).up
        ≢ Upstream.finished)
silent_upstream_deadlocks_example =
    silent_upstream_deadlocks in_memory_ops plain Plan.public_body [] only_sets turns tt

abbrev half_way : Sys Str
half_way =
    run in_memory_ops plain Plan.public_body [] turns
      (start in_memory_ops plain Plan.public_body [] script)

upstream_answers_example :
    ((half_way.up ≡ Upstream.finished) × (half_way.handler ≡ Handler.answered))
    ⊎ (moves (upstream_step in_memory_ops plain Plan.public_body [] half_way) ≡ true)
    ⊎ (moves (handler_step in_memory_ops plain Plan.public_body [] half_way) ≡ true)
upstream_answers_example =
    upstream_answers in_memory_ops plain Plan.public_body [] script turns tt tt

-- The upstream fails after its first write.
abbrev broken : List Bool → Fetching Str
broken bs =
    goes in_memory_ops plain Plan.public_body [] (some (codes "EOF")) bs
      (begin in_memory_ops plain Plan.public_body [] (some (codes "EOF")) script)

write_hides_error_example : ((broken turns).popped ≡ none) ⊎ ((broken turns).popped ≡ some none)
write_hides_error_example =
    write_hides_error in_memory_ops plain Plan.public_body [] (some (codes "EOF")) script turns tt

-- In that run the upstream has sent its error, and the client has its answer.
broken_test :
    ((broken (turns ++ (true ∷ true ∷ false ∷ false ∷ []))).err_chan ≡ some (some (codes "EOF")))
    × ((broken (turns ++ (true ∷ true ∷ false ∷ false ∷ []))).popped ≡ some none)
unfolding goes begin upstream_goes handler_goes pop_or_nil start upstream_step handler_step act
    answer write_header set_body wait_headers wait_body write write_to_body write_implicit_header
    close finish_close get_reader new_response
broken_test = (refl, refl)
