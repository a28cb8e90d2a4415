-- ===== src/Cache.antt =====
-- cache/cache.go: the messages that a node has been proposed, by height. The mutex makes each
-- operation one step. A Go map from `uint64` is the function that looks a key up.
use committer.Prelude.{ℕ, ◌≡◌, refl, String, Option, none, some, ◌==◌, if◌then◌else◌}
use committer.Proto.{Bytes}

pub record Msg : Type 0 where
  pub key : String
  pub value : Bytes

pub record Cache : Type 0 where
  pub store : ℕ → Option Msg

unfoldable pub new : Cache
new = record { store = λ _. none }

unfoldable pub set : Cache → ℕ → String → Bytes → Cache
set c index k v = record {
  store = λ i. if i == index then some (record { key = k; value = v }) else c.store i;
}

-- The third result of `Get`, which says whether the index is there, is the case of the option.
unfoldable pub get : Cache → ℕ → Option Msg
get c index = c.store index

unfoldable pub delete : Cache → ℕ → Cache
delete c index = record { store = λ i. if i == index then none else c.store i }

pub get-new : (i : ℕ) → get new i ≡ none
unfolding get new
get-new i = refl

pub get-set :
    (c : Cache) (j i : ℕ) (k : String) (v : Bytes)
    → get (set c j k v) i ≡ (if i == j then some (record { key = k; value = v }) else get c i)
unfolding get set
get-set c j i k v = refl

pub get-delete : (c : Cache) (j i : ℕ) → get (delete c j) i ≡ (if i == j then none else get c i)
unfolding get delete
get-delete c j i = refl

pub ruleset cache_laws = (get-new, get-set, get-delete)
