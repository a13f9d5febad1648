-- ===== src/Lru.antt =====
-- The LRU cache of github.com/descope/backend (monitoredlru), which is not in the repository: its
-- operations are a parameter, with the behaviour that the program relies on as laws. What the
-- eviction callback is called for follows TestUnderstandEvictionCallback of
-- internal/services/caches/projectauthzcache_test.go: an `Add` that pushes entries out and `Purge`
-- call it, `Remove` does not.
use authzcache.Base.{
  ℕ, ◌≡◌, false, List, Option, none, some, Text, text_eq, ◌==◌, contains, if◌then◌else◌,
}
use authzcache.Base.Int.{ℤ}

pub record Lru (V : Type 0) : Type 1 where
  pub State : Type 0
  -- refuses a size that is not positive
  pub new : ℤ → Option State
  -- a hit also renews the entry's age
  pub get : State → Text → Option V × State
  -- beside the new state the keys that were pushed out, for the callback
  pub add : State → Text → V → State × List Text
  pub remove : State → Text → State
  pub purge : State → State × List Text
  pub len : State → ℕ

-- `peek` is the content of the cache as a function of the key.
pub record LruLaws {V : Type 0} (lru : Lru V) : Type 0 where
  pub peek : lru.State → Text → Option V
  pub new_peek : (n : ℤ) (s : lru.State) (k : Text) → lru.new n ≡ some s → peek s k ≡ none
  pub get_peek : (s : lru.State) (k : Text) → (lru.get s k).0 ≡ peek s k
  pub peek_get : (s : lru.State) (k j : Text) → peek (lru.get s k).1 j ≡ peek s j
  pub peek_add_self : (s : lru.State) (k : Text) (v : V) → peek (lru.add s k v).0 k ≡ some v
  pub peek_add_other :
      (s : lru.State) (k j : Text) (v : V)
      → (k == j) ≡ false
      → peek (lru.add s k v).0 j ≡ (if contains j (lru.add s k v).1 then none else peek s j)
  pub peek_remove :
      (s : lru.State) (k j : Text) → peek (lru.remove s k) j ≡ (if k == j then none else peek s j)
  pub peek_purge : (s : lru.State) (k : Text) → peek (lru.purge s).0 k ≡ none
  pub len_zero : (s : lru.State) (k : Text) → lru.len s ≡ 0 → peek s k ≡ none
