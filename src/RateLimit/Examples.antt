-- ===== src/RateLimit/Examples.antt =====
-- A limiter that lets through one request in ten seconds, and the theorems about limiters at it.
use pigugu_server.Common.{◌≤◌, refl, [], ◌∷◌, arith}
use pigugu_server.Common.Dict
use pigugu_server.RateLimit.Limiter.{RateLimiter, check, new, admit, evict}
use pigugu_server.RateLimit.Window.{Run, created, asked, in_window, window_bound}
use pigugu_server.RateLimit.Refusal.{refused_full}

abbrev asked_once : RateLimiter
asked_once = (check (new 1 10) "u" 3).1

a_run : Run 1 10 "u" 3 (3 ∷ []) asked_once
unfolding check new admit evict Dict.get Dict.put
a_run = asked 0 [] (new 1 10) "u" 3 created (omega arith)

window_bound_example : in_window 10 12 (3 ∷ []) ≤ 1
window_bound_example = window_bound 1 10 "u" 3 (3 ∷ []) asked_once a_run 12

refused_full_example : 1 ≤ in_window 10 13 (3 ∷ [])
unfolding check new admit evict Dict.get Dict.put
refused_full_example = refused_full 1 10 "u" 3 (3 ∷ []) asked_once 13 a_run (omega arith) refl
