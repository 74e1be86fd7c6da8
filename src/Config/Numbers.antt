-- ===== src/Config/Numbers.antt =====
-- The numbers of the configuration.

use mahogany.Base.{ℕ, ◌*◌, ◌≤◌, ◌<◌, String, ◌≡◌, ◌↔◌, some, arith, pos, number_eq}
use mahogany.Config.{Environment, atoi, load_int_env, load_config, seconds, second, int_limit}

atoi-pos : (text : String) (n : ℕ) → atoi text ≡ some (pos n) → n < int_limit
unfolding atoi
atoi-pos String.[] n e = ground arith
atoi-pos (String.◌∷◌ c s) n e = ground arith

seconds-pos : (n : ℕ) → n < int_limit → (seconds (pos n) ≡ pos (n * second)) ↔ (n ≤ 9_223_372_036)
unfolding seconds
seconds-pos n small = (λ same. ground arith, λ few. ground arith)

-- The timeout that is asked for in seconds is the one that the server gets exactly when it is at
-- most 9223372036, about 292 years; beyond, the product with a second overflows.
pub load_config_timeout :
    (env : Environment) (text : String) (n : ℕ)
    → env "TIMEOUT" ≡ some text
    → atoi text ≡ some (pos n)
    → ((load_config env).timeout ≡ pos (n * second)) ↔ (n ≤ 9_223_372_036)
unfolding load_config load_int_env
load_config_timeout env text n given read =
    rw (given, load_int_env, read) (seconds-pos n (atoi-pos text n read))
